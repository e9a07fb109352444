-- ===== src/Keys.antt =====
-- The key factory (internal/ssh/key_factory.go).
use gitlab_ci_fargate_arm_dr.Prelude.{ℕ, Bytes, codes, Option, none, some, []}
use gitlab_ci_fargate_arm_dr.Go.Errors.{Error, typed, Kind}
use gitlab_ci_fargate_arm_dr.Platform.{Platform, Result, ok, err, KeyPair, Call}
use gitlab_ci_fargate_arm_dr.Platform.Effects.{M, ◌>>=◌, ◌>>◌, pure, lift, wrap, perform}

abbrev pub rsa_private_key_type : Bytes
rsa_private_key_type = codes "RSA PRIVATE KEY"

-- The answer of `Validate` in the driver's own error type.
abbrev valid : Option Error → Result (Unit {0})
valid none = ok tt
valid (some e) = err (typed Kind.invalid_rsa_key e)

module _ {P : Platform} where
  encode_private_key_to_pem : P.PrivateKey → M P Bytes
  encode_private_key_to_pem key =
      pure (P.encode_pem rsa_private_key_type (P.marshal_pkcs1_private_key key))

  get_public_key : P.PrivateKey → M P Bytes
  get_public_key key = do
    public_key ← lift (P.new_ssh_public_key key)
    pure (P.marshal_authorized_key public_key)

  -- `Create`
  unfoldable pub create : ℕ → M P KeyPair
  unfolding encode_private_key_to_pem get_public_key
  create bit_size = do
    key ←
        wrap "generating the private key: %w" []
          (perform (λ h. P.generate_rsa_key h bit_size) (λ _. Call.generate_key bit_size))
    lift (valid (P.validate_key key))
    private_key ← encode_private_key_to_pem key
    public_key ← wrap "generating the public key: %w" [] (get_public_key key)
    pure (record { public_key = public_key; private_key = private_key })
