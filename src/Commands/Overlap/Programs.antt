-- ===== src/Commands/Overlap/Programs.antt =====
-- The stages of cmd/fargate/commands/custom/ as programs that other processes may interrupt. The
-- steps are the calls of the components: of the AWS adapter, of the metadata manager, of the key
-- factory, and, for the run stage, of the executor.
use gitlab_ci_fargate_arm_dr.Prelude.{String, Bytes, Option, none, some, List, [], ◌∷◌}
use gitlab_ci_fargate_arm_dr.Go.Errors.{Error, wrapped, sentinel, Sentinel}
use gitlab_ci_fargate_arm_dr.Platform.{Platform, Data, KeyPair, ok, err}
use gitlab_ci_fargate_arm_dr.Platform.Program.{Program, ret, act, ◌>>=◌, ◌>>◌, wrap, on_error}
use gitlab_ci_fargate_arm_dr.Aws.{stop_task, wait_until_task_running, get_container_ip}
use gitlab_ci_fargate_arm_dr.Task.Metadata.{get, clear}
use gitlab_ci_fargate_arm_dr.Keys.{create}
use gitlab_ci_fargate_arm_dr.Context.{Context}
use gitlab_ci_fargate_arm_dr.Version.{VersionInfo}
use gitlab_ci_fargate_arm_dr.Commands.Config
use gitlab_ci_fargate_arm_dr.Commands.Prepare.{
  PrepareCommand, start_new_fargate_task, stop_fargate_task_on_error, persist_data_for_later_stages,
  default_bit_size,
}
use gitlab_ci_fargate_arm_dr.Commands.Prepare
use gitlab_ci_fargate_arm_dr.Commands.Run.{
  read_file_content, obtain_task_data, execute_script_on_task_container,
}
use gitlab_ci_fargate_arm_dr.Commands.Run
use gitlab_ci_fargate_arm_dr.Commands.Cleanup.{CleanupCommand}
use gitlab_ci_fargate_arm_dr.Commands.Cleanup

module _ {P : Platform} where
  -- The prepare stage.
  unfoldable pub wait_fargate_task_ready : PrepareCommand → Bytes → Program P Bytes
  wait_fargate_task_ready c arn = do
    wrap "waiting for Fargate task to be in running state: %w" []
        (act (wait_until_task_running c.aws_fargate arn c.cfg.fargate.cluster))
    wrap "fetching the container IP: %w" [] (
        act
          (get_container_ip c.aws_fargate arn c.cfg.fargate.cluster c.cfg.fargate.enable_public_ip))

  unfoldable pub started_or_stopped : PrepareCommand → Bytes × Option Error → Program P Bytes
  started_or_stopped c (arn, none) = ret (ok arn)
  started_or_stopped c (arn, some e) = do
    act (stop_fargate_task_on_error c arn e)
    ret (err (wrapped "starting new Fargate task: %w" [] e))

  unfoldable pub persist_or_stop : PrepareCommand → String → Data → Program P (Unit {0})
  persist_or_stop c format details = wrap format [] (
      on_error (act (persist_data_for_later_stages c details))
        (λ e. act (stop_fargate_task_on_error c details.task_arn e)))

  unfoldable pub wait_or_stop : PrepareCommand → Bytes → Program P Bytes
  wait_or_stop c arn =
      wrap "waiting Fargate task to be ready: %w" []
        (on_error (wait_fargate_task_ready c arn) (λ e. act (stop_fargate_task_on_error c arn e)))

  unfoldable pub complete_task : PrepareCommand → Bytes → Bytes → Program P (Unit {0})
  complete_task c arn private_key = do
    container_ip ← wait_or_stop c arn
    persist_or_stop c "persisting container IP for later stages: %w"
        (record { task_arn = arn; container_ip = container_ip; private_key = private_key })

  unfoldable pub finish_task : PrepareCommand → Bytes → Bytes → Program P (Unit {0})
  finish_task c arn private_key = do
    persist_or_stop c "persisting task ARN for later stages: %w"
        (record { task_arn = arn; container_ip = []; private_key = private_key })
    complete_task c arn private_key

  unfoldable pub start_and_finish : PrepareCommand → KeyPair → Program P (Unit {0})
  start_and_finish c key_pair = do
    started ← act (start_new_fargate_task c key_pair.public_key)
    arn ← started_or_stopped c started
    finish_task c arn key_pair.private_key

  unfoldable pub create_key_and_start : PrepareCommand → Program P (Unit {0})
  create_key_and_start c = do
    key_pair ← wrap "generating public/private keys: %w" [] (act (create default_bit_size))
    start_and_finish c key_pair

  unfoldable pub prepare : Context → Program P (Unit {0})
  prepare ctx = do
    c ← wrap "initializing PrepareCommand: %w" [] (act (Prepare.init_command ctx))
    create_key_and_start c

  -- The run stage; a script that runs on the remote host is one step.
  unfoldable pub execute_script_file : Context → Bytes → Program P (Unit {0})
  execute_script_file ctx script_path = do
    c ← act (Run.init_command ctx)
    script ← wrap "reading the script content: %w" [] (act (read_file_content script_path))
    x ← wrap "obtaining information about the running task: %w" [] (act (obtain_task_data c))
    wrap "executing the script on the remote host: %w" []
        (act (execute_script_on_task_container x c.cfg.ssh script))

  unfoldable pub run_args : Context → List Bytes → Program P (Unit {0})
  run_args ctx (script_path ∷ stage ∷ more) = execute_script_file ctx script_path
  run_args ctx _ = ret (err (sentinel Sentinel.missing_required_arguments))

  -- The cleanup stage.
  unfoldable pub stop_and_clear : CleanupCommand → Program P (Unit {0})
  stop_and_clear c = do
    x ← wrap "obtaining information about the running task: %w" [] (act (get c.metadata_manager))
    wrap "stopping Fargate Task %q: %w" (x.task_arn ∷ [])
        (act (stop_task c.aws_fargate x.task_arn c.cfg.fargate.cluster))
    wrap "deleting metadata related to the stopped Fargate Task %q: %w" (x.task_arn ∷ [])
        (act (clear c.metadata_manager))

  unfoldable pub cleanup : Context → Program P (Unit {0})
  cleanup ctx = do
    c ← wrap "initializing CleanupCommand: %w" [] (act (Cleanup.init_command ctx))
    stop_and_clear c

-- The stages of a job, each with what its process is given.
pub data Stage : Type 0 where
  prepares runs cleans_up : Context → Stage
  configures : VersionInfo → Context → Stage

unfoldable pub program : {P : Platform} → Stage → Program P (Unit {0})
program (prepares ctx) = prepare ctx
program (runs ctx) = run_args ctx ctx.args
program (cleans_up ctx) = cleanup ctx
program (configures v ctx) = act (Config.custom_execute v ctx)
