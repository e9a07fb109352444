-- ===== src/SshService.antt =====
-- The SSH service of the container image (dockerfiles/ssh_service/main.go): what `main` does before
-- its servers run. What it calls of Go and of the system is the record `Host`.
pub mod Files
pub mod Steps
pub mod Setup
pub mod Servers
use gitlab_ci_fargate_arm_dr.Prelude.{◌≡◌, String, ℕ, Bytes, codes, Bool, List, [], ◌∷◌, ◌++◌}
use gitlab_ci_fargate_arm_dr.Go.Int.{pos}
use gitlab_ci_fargate_arm_dr.Go.Errors.{Error}
use gitlab_ci_fargate_arm_dr.Go.Decimal.{fmt_int}
use gitlab_ci_fargate_arm_dr.Platform.{Result, ok, err, panic}
use gitlab_ci_fargate_arm_dr.Platform.Effects.{Action, ◌>>=◌, ◌>>◌, pure, wrap}

abbrev pub http_port : ℕ
http_port = 8888

abbrev pub sshd_port : ℕ
sshd_port = 2222

abbrev pub authorized_keys_file_path : Bytes
authorized_keys_file_path = codes "/root/.ssh/authorized_keys"

abbrev pub username : Bytes
username = codes "root"

pub record Info : Type 0 where
  pub port : ℕ
  pub username : Bytes
  pub host_private_key : Bytes
  pub host_public_key : Bytes
  pub user_private_key : Bytes
  pub user_public_key : Bytes

pub record Key : Type 0 where
  pub private_key_path : Bytes
  pub public_key_path : Bytes
  pub private_key : Bytes
  pub public_key : Bytes

-- The file system with the programs that work on it, paths, and the writer of a response.
pub record Host : Type 1 where
  pub World : Type 0
  -- `ioutil.TempDir("", prefix)`
  pub temp_dir : Bytes → Action World Bytes
  -- `exec.Command(words...)`: `Run`, and `String`
  pub run_command : List Bytes → Action World (Unit {0})
  pub command_string : List Bytes → Bytes
  pub read_file : World → Bytes → Result Bytes
  pub write_file : Bytes → Bytes → ℕ → Action World (Unit {0})
  pub mkdir_all : Bytes → ℕ → Action World (Unit {0})
  -- `filepath.Join` of two names, `filepath.Dir`
  pub join : Bytes → Bytes → Bytes
  pub dir : Bytes → Bytes
  -- `http.ResponseWriter`: `json.NewEncoder(rw).Encode`, `WriteHeader`, `fmt.Fprintf` with an error
  pub Response : Type 0
  pub encode : Info → Action Response (Unit {0})
  pub write_header : ℕ → Response → Response
  pub print_error : String → Error → Response → Response

-- `if err != nil { panic(err) }`
abbrev pub or_panic : {S A : Type 0} → Action S A → Action S A
or_panic m s =
    let (r, s') = m s in
    elim r [
      | ok a ↦ (ok a, s')
      | err e ↦ (panic "setting up the SSH service", s')
      | panic t ↦ (panic t, s')
    ]

abbrev pub keygen : Bytes → List Bytes
keygen path =
    codes "ssh-keygen"
    ∷ codes "-t"
    ∷ codes "rsa"
    ∷ codes "-b"
    ∷ codes "2048"
    ∷ codes "-N"
    ∷ []
    ∷ codes "-f"
    ∷ path
    ∷ []

-- `fmt.Sprintf(sshConfig, sshdPort, key.PrivateKeyPath)`
unfoldable pub ssh_config : Key → Bytes
ssh_config key =
    codes "\nPort "
    ++ fmt_int (pos sshd_port)
    ++ codes "\nListenAddress 0.0.0.0\nHostKey "
    ++ key.private_key_path
    ++ codes
        "\nPermitRootLogin yes\nPubkeyAuthentication yes\nPasswordAuthentication no\nChallengeResponseAuthentication no\nAuthorizedKeysFile      .ssh/authorized_keys\nAllowTcpForwarding no\nGatewayPorts no\nX11Forwarding no\nPrintMotd no\nAcceptEnv LANG LC_*\nSubsystem       sftp    /usr/lib/openssh/sftp-server\n"

abbrev pub info : Key → Key → Info
info host_key user_key = record {
  username = username;
  port = sshd_port;
  host_private_key = host_key.private_key;
  host_public_key = host_key.public_key;
  user_private_key = user_key.private_key;
  user_public_key = user_key.public_key;
}

module _ (H : Host) where
  -- `ioutil.ReadFile`
  abbrev pub read : Bytes → Action H.World Bytes
  read path w = (H.read_file w path, w)

  -- The files of a key that exists.
  unfoldable pub read_key : Bytes → Bytes → Action H.World Key
  read_key private_key_file_path public_key_file_path = do
    private_key ←
        wrap "reading private key file %q: %w" (private_key_file_path ∷ [])
          (read private_key_file_path)
    public_key ←
        wrap "reading public key file %q: %w" (public_key_file_path ∷ [])
          (read public_key_file_path)
    pure (record {
      private_key_path = private_key_file_path;
      public_key_path = public_key_file_path;
      private_key = private_key;
      public_key = public_key;
    })

  -- The name is only printed.
  unfoldable pub generate_key : Bytes → Action H.World Key
  unfolding read_key
  generate_key name = do
    private_key_dir ← wrap "creating key storage directory: %w" [] (H.temp_dir (codes "ssh-key"))
    let private_key_file_path = H.join private_key_dir (codes "id_rsa")
    let public_key_file_path = private_key_file_path ++ codes ".pub"
    wrap "executing %q command: %w" (H.command_string (keygen private_key_file_path) ∷ [])
        (H.run_command (keygen private_key_file_path))
    read_key private_key_file_path public_key_file_path

  unfoldable pub create_config_file : Key → Action H.World Bytes
  create_config_file key = do
    let file_content = ssh_config key
    config_dir ← wrap "creating key storage directory: %w" [] (H.temp_dir (codes "sshd-config"))
    let config_file_path = H.join config_dir (codes "sshd_config")
    wrap "writing configuration file %q: %w" (config_file_path ∷ [])
        (H.write_file config_file_path file_content 384)
    pure config_file_path

  unfoldable pub write_authorized_keys : Key → Action H.World (Unit {0})
  write_authorized_keys key =
      let authorized_keys_path = H.dir authorized_keys_file_path in
      wrap "creating authorized keys directory %q: %w" (authorized_keys_path ∷ [])
        (H.mkdir_all authorized_keys_path 448)
      >> wrap "writing authorized keys file %q: %w" (authorized_keys_file_path ∷ [])
          (H.write_file authorized_keys_file_path key.public_key 384)

  -- `main` up to its call of `run`: what it passes on, in the order of the arguments.
  unfoldable pub set_up : Action H.World (Bytes × Key × Key)
  unfolding generate_key create_config_file write_authorized_keys
  set_up = do
    host_key ← or_panic (generate_key (codes "host"))
    user_key ← or_panic (generate_key (codes "user"))
    config_file_path ← or_panic (create_config_file host_key)
    or_panic (write_authorized_keys user_key)
    pure (config_file_path, host_key, user_key)

  -- `serveConfig`: what the handler writes. It ignores the request.
  unfoldable pub serve_config : Key → Key → Action H.Response (Unit {0})
  serve_config host_key user_key writer =
      let (r, written) = H.encode (info host_key user_key) writer in
      elim r [
        | ok _ ↦ (ok tt, written)
        | err e ↦
            (ok tt, H.print_error "couldn't encode response: %v" e (H.write_header 500 written))
        | panic t ↦ (panic t, written)
      ]
