-- ===== src/SshService/Setup.antt =====
-- The set-up of the SSH service as a whole.
use gitlab_ci_fargate_arm_dr.Prelude.{◌≡◌, Bytes}
use gitlab_ci_fargate_arm_dr.Platform.{ok}
use gitlab_ci_fargate_arm_dr.SshService.{Host, Key, authorized_keys_file_path, ssh_config}

-- What the servers find: the files of both keys, the configuration with the path of the host's key,
-- and the user's key as the one that is authorized.
pub record IsReady (H : Host) (path : Bytes) (host_key user_key : Key) (w : H.World) : Type 0 where
  pub configured : H.read_file w path ≡ ok (ssh_config host_key)
  pub authorized : H.read_file w authorized_keys_file_path ≡ ok user_key.public_key
  pub host_private : H.read_file w host_key.private_key_path ≡ ok host_key.private_key
  pub host_public : H.read_file w host_key.public_key_path ≡ ok host_key.public_key
  pub user_private : H.read_file w user_key.private_key_path ≡ ok user_key.private_key
  pub user_public : H.read_file w user_key.public_key_path ≡ ok user_key.public_key
