-- ===== src/SshService/Steps.antt =====
-- The steps of the set-up of the SSH service: the keys, the configuration file, the authorized keys.
use gitlab_ci_fargate_arm_dr.Prelude.{◌≡◌, refl, sym, ap, ◌∙◌, inl, inr, Bytes, codes, ◌++◌, arith}
use mathlib.Core.Path.{subst}
use gitlab_ci_fargate_arm_dr.Platform.{ok}
use gitlab_ci_fargate_arm_dr.Platform.Effects.{Result-cases}
use gitlab_ci_fargate_arm_dr.SshService.{
  Host, Key, keygen, authorized_keys_file_path, ssh_config, read_key, generate_key,
  create_config_file, write_authorized_keys,
}
use gitlab_ci_fargate_arm_dr.SshService.Files.{
  IsMade, IsOrdinary, Spares, apart, temp_dir-IsMade, new_write-Spares, new_keygen-Spares,
}

-- The files of a key hold it, and stand in one directory.
pub record Holds {H : Host} (F : IsOrdinary H) (key : Key) (w : H.World) : Type 0 where
  pub home : Bytes
  pub there : F.Exists w home
  pub temporary : IsMade H home
  pub private_in : H.dir key.private_key_path ≡ home
  pub public_in : H.dir key.public_key_path ≡ home
  pub private_held : H.read_file w key.private_key_path ≡ ok key.private_key
  pub public_held : H.read_file w key.public_key_path ≡ ok key.public_key

module _ {H : Host} (F : IsOrdinary H) where
  pub Holds-Spares : (key : Key) (w v : H.World) → Spares F w v → Holds F key w → Holds F key v
  Holds-Spares key w v s h = record {
    home = h.home;
    there = s.keeps h.home h.there;
    temporary = h.temporary;
    private_in = h.private_in;
    public_in = h.public_in;
    private_held = s.same h.home h.there key.private_key_path h.private_in ∙ h.private_held;
    public_held = s.same h.home h.there key.public_key_path h.public_in ∙ h.public_held;
  }

  -- A key that is read is one that its files hold.
  read_key_lem :
      (private_path public_path : Bytes) (key : Key) (w : H.World)
      → (read_key H private_path public_path w).0 ≡ ok key
      → (H.read_file w private_path ≡ ok key.private_key)
        × (H.read_file w public_path ≡ ok key.public_key)
        × (key.private_key_path ≡ private_path)
        × (key.public_key_path ≡ public_path)
        × ((read_key H private_path public_path w).1 ≡ w)
  unfolding read_key
  read_key_lem private_path public_path key w h = elim (Result-cases (H.read_file w private_path)) [
    | inl (a, e) ↦ elim (Result-cases (H.read_file w public_path)) [
      | inl (b, g) ↦ ground arith
      | inr (inl (f, g)) ↦ absurd (ground arith)
      | inr (inr (f, g)) ↦ absurd (ground arith)
    ]
    | inr (inl (f, e)) ↦ absurd (ground arith)
    | inr (inr (f, e)) ↦ absurd (ground arith)
  ]

  pub generate_key-Holds :
      (name : Bytes) (key : Key) (w : H.World)
      → (generate_key H name w).0 ≡ ok key
      → Holds F key (generate_key H name w).1 × Spares F w (generate_key H name w).1
  unfolding generate_key
  generate_key-Holds name key w h = elim (Result-cases (H.temp_dir (codes "ssh-key") w).0) [
    | inl (d, e) ↦
        let path = H.join d (codes "id_rsa") in
        let v = (H.temp_dir (codes "ssh-key") w).1 in
        elim (Result-cases (H.run_command (keygen path) v).0) [
          | inl (u, g) ↦
              let v2 = (H.run_command (keygen path) v).1 in
              let step : generate_key H name w ≡ read_key H path (path ++ codes ".pub") v2 =
                ground arith in
              let read_ok : (read_key H path (path ++ codes ".pub") v2).0 ≡ ok key =
                sym (ap (λ r. r.0) step) ∙ h in
              let (held, held_public, at, at_public, same) =
                read_key_lem path (path ++ codes ".pub") key v2 read_ok in
              let end : v2 ≡ (generate_key H name w).1 = sym (ap (λ r. r.1) step ∙ same) in
              let temp = temp_dir-IsMade F (codes "ssh-key") d w e in
              (
                subst (Holds F key) end (record {
                  home = d;
                  there = F.keygen_keeps path d v (F.temp_dir_makes (codes "ssh-key") d w e);
                  temporary = temp;
                  private_in = ap H.dir at ∙ F.dir-private d temp;
                  public_in = ap H.dir at_public ∙ F.dir-public d temp;
                  private_held = ap (H.read_file v2) at ∙ held;
                  public_held = ap (H.read_file v2) at_public ∙ held_public;
                }),
                subst (Spares F w) end (
                    new_keygen-Spares F (codes "ssh-key") d w e path (F.dir-private d temp)
                      (F.dir-public d temp)),
              )
          | inr (inl (f, g)) ↦ absurd (ground arith)
          | inr (inr (f, g)) ↦ absurd (ground arith)
        ]
    | inr (inl (f, e)) ↦ absurd (ground arith)
    | inr (inr (f, e)) ↦ absurd (ground arith)
  ]

  -- The configuration file holds the configuration.
  pub create_config_file-Spares :
      (key : Key) (path : Bytes) (w : H.World)
      → (create_config_file H key w).0 ≡ ok path
      → (H.read_file (create_config_file H key w).1 path ≡ ok (ssh_config key))
        × ((d : Bytes) × IsMade H d × F.Exists (create_config_file H key w).1 d × (H.dir path ≡ d))
        × Spares F w (create_config_file H key w).1
  unfolding create_config_file
  create_config_file-Spares key path w h =
      elim (Result-cases (H.temp_dir (codes "sshd-config") w).0) [
        | inl (d, e) ↦
            let name = H.join d (codes "sshd_config") in
            let v = (H.temp_dir (codes "sshd-config") w).1 in
            elim (Result-cases (H.write_file name (ssh_config key) 384 v).0) [
              | inl (u, g) ↦
                  let end : (H.write_file name (ssh_config key) 384 v).1
                      ≡ (create_config_file H key w).1 =
                    ground arith in
                  let same : name ≡ path = ground arith in
                  let temp = temp_dir-IsMade F (codes "sshd-config") d w e in
                  (
                    ap (λ x. H.read_file x path) (sym end)
                        ∙ ap (H.read_file _) (sym same)
                        ∙ F.read-write name (ssh_config key) 384 v (ground arith),
                    (
                      d,
                      temp,
                      subst (λ x. F.Exists x d) end
                          (F.write_keeps name (ssh_config key) d 384 v
                            (F.temp_dir_makes (codes "sshd-config") d w e)),
                      ap H.dir (sym same) ∙ F.dir-config d temp,
                    ),
                    subst (Spares F w) end (
                        new_write-Spares F (codes "sshd-config") d w e name (ssh_config key) 384
                          (F.dir-config d temp)),
                  )
              | inr (inl (f, g)) ↦ absurd (ground arith)
              | inr (inr (f, g)) ↦ absurd (ground arith)
            ]
        | inr (inl (f, e)) ↦ absurd (ground arith)
        | inr (inr (f, e)) ↦ absurd (ground arith)
      ]

  -- The authorized keys are written, and the temporary directories stay as they were.
  pub write_authorized_keys_lem :
      (key : Key) (w : H.World)
      → (write_authorized_keys H key w).0 ≡ ok tt
      → (H.read_file (write_authorized_keys H key w).1 authorized_keys_file_path
          ≡ ok key.public_key)
        × ((d path : Bytes)
            → IsMade H d
            → H.dir path ≡ d
            → H.read_file (write_authorized_keys H key w).1 path ≡ H.read_file w path)
  unfolding write_authorized_keys
  write_authorized_keys_lem key w h =
      let folder = H.dir authorized_keys_file_path in
      let v = (H.mkdir_all folder 448 w).1 in
      elim (Result-cases (H.mkdir_all folder 448 w).0) [
        | inl (u, e) ↦
            let end : (H.write_file authorized_keys_file_path key.public_key 384 v).1
                ≡ (write_authorized_keys H key w).1 =
              ground arith in
            let done : (H.write_file authorized_keys_file_path key.public_key 384 v).0 ≡ ok tt =
              elim (Result-cases (H.write_file authorized_keys_file_path key.public_key 384 v).0) [
                | inl (x, g) ↦ g
                | inr (inl (f, g)) ↦ absurd (ground arith)
                | inr (inr (f, g)) ↦ absurd (ground arith)
              ] in
            (
              ap (λ x. H.read_file x authorized_keys_file_path) (sym end)
                  ∙ F.read-write authorized_keys_file_path key.public_key 384 v done,
              λ d path temp p.
                  ap (λ x. H.read_file x path) (sym end)
                  ∙ F.read-write_other authorized_keys_file_path path key.public_key 384 v
                      (apart F authorized_keys_file_path path folder d refl p (F.elsewhere d temp))
                  ∙ F.read-mkdir_all folder path 448 w,
            )
        | inr (inl (f, e)) ↦ absurd (ground arith)
        | inr (inr (f, e)) ↦ absurd (ground arith)
      ]
