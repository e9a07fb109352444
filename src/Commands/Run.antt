-- ===== src/Commands/Run.antt =====
-- The run stage (cmd/fargate/commands/custom/run.go).
pub mod Laws
pub mod Errors
pub mod Calls
use gitlab_ci_fargate_arm_dr.Prelude.{Bytes, List, [], ◌∷◌, if◌then◌else◌}
use gitlab_ci_fargate_arm_dr.Go.Int.{ℤ, pos, below_one}
use gitlab_ci_fargate_arm_dr.Go.Errors.{sentinel, Sentinel}
use gitlab_ci_fargate_arm_dr.Config.{Global, Ssh}
use gitlab_ci_fargate_arm_dr.Platform.{Platform, Data, ConnectionSettings}
use gitlab_ci_fargate_arm_dr.Platform.Effects.{M, ◌>>=◌, pure, raise, wrap}
use gitlab_ci_fargate_arm_dr.Task.Metadata.{MetadataManager, new_metadata_manager, get}
use gitlab_ci_fargate_arm_dr.Executor.{new_executor, execute}
use gitlab_ci_fargate_arm_dr.Context.{Context}

-- executors/executor.go
abbrev pub default_port : ℤ
default_port = pos 22

pub record RunCommand : Type 0 where
  pub cfg : Global
  pub metadata_manager : MetadataManager

-- The settings of the connection, with the default port in place of one below 1.
unfoldable pub settings : Data → Ssh → ConnectionSettings
settings x ssh = record {
  hostname = x.container_ip;
  port = if below_one ssh.port then default_port else ssh.port;
  username = ssh.username;
  private_key = x.private_key;
}

module _ {P : Platform} where
  unfoldable pub init_command : Context → M P RunCommand
  init_command ctx = do
    manager ← new_metadata_manager ctx.adapter ctx.config.task_metadata.directory
    pure (record { cfg = ctx.config; metadata_manager = manager })

  unfoldable pub read_file_content : Bytes → M P Bytes
  read_file_content path s =
      wrap "reading file %q: %w" (path ∷ []) (λ t. (P.read_file t.disk path, t)) s

  unfoldable pub obtain_task_data : RunCommand → M P Data
  obtain_task_data c = wrap "fetching data from metadata storage: %w" [] (get c.metadata_manager)

  -- A new executor runs the script; it is not used again.
  unfoldable pub execute_script_on_task_container : Data → Ssh → Bytes → M P (Unit {0})
  execute_script_on_task_container x ssh script =
      wrap "executing script on container with IP %q: %w" (x.container_ip ∷ [])
        (λ s. let (r, (_, t)) = execute (settings x ssh) script (new_executor, s) in (r, t))

  -- `CustomExecute` after its test of the arguments.
  unfoldable pub execute_script_file : Context → Bytes → M P (Unit {0})
  execute_script_file ctx script_path = do
    c ← init_command ctx
    script ← wrap "reading the script content: %w" [] (read_file_content script_path)
    x ← wrap "obtaining information about the running task: %w" [] (obtain_task_data c)
    wrap "executing the script on the remote host: %w" []
        (execute_script_on_task_container x c.cfg.ssh script)

  unfoldable pub run_args : Context → List Bytes → M P (Unit {0})
  run_args ctx (script_path ∷ stage ∷ more) = execute_script_file ctx script_path
  run_args ctx _ = raise (sentinel Sentinel.missing_required_arguments)

  unfoldable pub custom_execute : Context → M P (Unit {0})
  unfolding run_args
  custom_execute ctx = run_args ctx ctx.args
