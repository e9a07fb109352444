-- ===== src/Executor/Client.antt =====
-- The client of the executor (executors/ssh/internal/client/client.go) over the SSH library. A client
-- is the address that it is connected to. The outputs of a session are left out.
use gitlab_ci_fargate_arm_dr.Prelude.{Bytes}
use gitlab_ci_fargate_arm_dr.Platform.{Platform, Call}
use gitlab_ci_fargate_arm_dr.Platform.Effects.{M, ◌>>◌, pure, perform}

module _ {P : Platform} where
  abbrev pub new_connect_client : Bytes → Bytes → Bytes → M P Bytes
  new_connect_client addr user key = do
    perform (λ h. P.ssh_dial h addr user key) (λ _. Call.dial addr user key)
    pure addr

  abbrev pub new_session : M P (Unit {0})
  new_session = perform P.ssh_new_session (λ _. Call.open_session)

  abbrev pub disconnect : M P (Unit {0})
  disconnect = perform P.ssh_close (λ _. Call.disconnect)
