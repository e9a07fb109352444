-- ===== src/Commands/Prepare.antt =====
-- The prepare stage (cmd/fargate/commands/custom/prepare.go).
pub mod Steps
pub mod Tasks
pub mod Stored
pub mod Request
pub mod Traced
use gitlab_ci_fargate_arm_dr.Prelude.{
  ℕ, String, Bytes, codes, is_empty, Option, none, some, [], ◌∷◌, if◌then◌else◌,
}
use gitlab_ci_fargate_arm_dr.Go.Errors.{Error, wrapped}
use gitlab_ci_fargate_arm_dr.Config.{Global}
use gitlab_ci_fargate_arm_dr.Platform.{Platform, Data, KeyPair}
use gitlab_ci_fargate_arm_dr.Platform.Effects.{
  M, ◌>>=◌, ◌>>◌, pure, raise, wrap, on_error, ignore_error,
}
use gitlab_ci_fargate_arm_dr.Aws.{
  AwsFargate, TaskSettings, ConnectionSettings, new_fargate, init, run_task, stop_task,
  wait_until_task_running, get_container_ip,
}
use gitlab_ci_fargate_arm_dr.Task.Metadata.{MetadataManager, new_metadata_manager, persist}
use gitlab_ci_fargate_arm_dr.Keys.{create}
use gitlab_ci_fargate_arm_dr.Context.{Context}

abbrev pub default_bit_size : ℕ
default_bit_size = 4096

-- The fields that `init` fills.
pub record PrepareCommand : Type 0 where
  pub cfg : Global
  pub aws_fargate : AwsFargate
  pub metadata_manager : MetadataManager

abbrev pub task_settings : Global → Bytes → TaskSettings
task_settings cfg public_key = record {
  cluster = cfg.fargate.cluster;
  task_definition = cfg.fargate.task_definition;
  platform_version = cfg.fargate.platform_version;
  environment_variables = (codes "SSH_PUBLIC_KEY", public_key) ∷ [];
}

abbrev pub connection_settings : Global → ConnectionSettings
connection_settings cfg = record {
  subnet = cfg.fargate.subnet;
  security_group = cfg.fargate.security_group;
  enable_public_ip = cfg.fargate.enable_public_ip;
}

module _ {P : Platform} where
  unfoldable pub init_command : Context → M P PrepareCommand
  init_command ctx = do
    fargate ←
        wrap "initializing Fargate adapter: %w" [] (init (new_fargate ctx.config.fargate.region))
    manager ← new_metadata_manager ctx.adapter ctx.config.task_metadata.directory
    pure (record { cfg = ctx.config; aws_fargate = fargate; metadata_manager = manager })

  -- The task's ARN and the error, both of which the caller looks at.
  unfoldable pub start_new_fargate_task : PrepareCommand → Bytes → M P (Bytes × Option Error)
  start_new_fargate_task c public_key = do
    started ← run_task c.aws_fargate (task_settings c.cfg public_key) (connection_settings c.cfg)
    elim started.1 [
      | some e ↦ pure (started.0, some (wrapped "running new task on Fargate: %w" [] e))
      | none ↦ pure (started.0, none)
    ]

  unfoldable pub stop_fargate_task_on_error : PrepareCommand → Bytes → Error → M P (Unit {0})
  stop_fargate_task_on_error c arn e =
      if is_empty arn
      then pure tt
      else ignore_error (stop_task c.aws_fargate arn c.cfg.fargate.cluster)

  unfoldable pub persist_data_for_later_stages : PrepareCommand → Data → M P (Unit {0})
  persist_data_for_later_stages c details =
      wrap "persisting metadata: %w" [] (persist c.metadata_manager details)

  unfoldable pub wait_fargate_task_ready : PrepareCommand → Bytes → M P Bytes
  wait_fargate_task_ready c arn = do
    wrap "waiting for Fargate task to be in running state: %w" []
        (wait_until_task_running c.aws_fargate arn c.cfg.fargate.cluster)
    wrap "fetching the container IP: %w" []
        (get_container_ip c.aws_fargate arn c.cfg.fargate.cluster c.cfg.fargate.enable_public_ip)

  -- The two results of the start, its error handled.
  unfoldable pub started_or_stopped : PrepareCommand → Bytes × Option Error → M P Bytes
  started_or_stopped c (arn, none) = pure arn
  started_or_stopped c (arn, some e) = do
    stop_fargate_task_on_error c arn e
    raise (wrapped "starting new Fargate task: %w" [] e)

  -- A step of `CustomExecute` with its error handling: the task is stopped if the step fails.
  unfoldable pub persist_or_stop : PrepareCommand → String → Data → M P (Unit {0})
  persist_or_stop c format details = wrap format [] (
      on_error (persist_data_for_later_stages c details)
        (stop_fargate_task_on_error c details.task_arn))

  unfoldable pub wait_or_stop : PrepareCommand → Bytes → M P Bytes
  wait_or_stop c arn =
      wrap "waiting Fargate task to be ready: %w" []
        (on_error (wait_fargate_task_ready c arn) (stop_fargate_task_on_error c arn))

  -- The steps of `CustomExecute` once the task's data is stored: the data is stored again, with
  -- the address of the container.
  unfoldable pub complete_task : PrepareCommand → Bytes → Bytes → M P (Unit {0})
  complete_task c arn private_key = do
    container_ip ← wait_or_stop c arn
    persist_or_stop c "persisting container IP for later stages: %w"
        (record { task_arn = arn; container_ip = container_ip; private_key = private_key })

  -- The steps of `CustomExecute` once the task runs.
  unfoldable pub finish_task : PrepareCommand → Bytes → Bytes → M P (Unit {0})
  finish_task c arn private_key = do
    persist_or_stop c "persisting task ARN for later stages: %w"
        (record { task_arn = arn; container_ip = []; private_key = private_key })
    complete_task c arn private_key

  -- The steps from the start of the task on.
  unfoldable pub start_and_finish : PrepareCommand → KeyPair → M P (Unit {0})
  start_and_finish c key_pair = do
    started ← start_new_fargate_task c key_pair.public_key
    arn ← started_or_stopped c started
    finish_task c arn key_pair.private_key

  -- `CustomExecute` once the command is initialised.
  unfoldable pub create_key_and_start : PrepareCommand → M P (Unit {0})
  create_key_and_start c = do
    key_pair ← wrap "generating public/private keys: %w" [] (create default_bit_size)
    start_and_finish c key_pair

  unfoldable pub custom_execute : Context → M P (Unit {0})
  custom_execute ctx = do
    c ← wrap "initializing PrepareCommand: %w" [] (init_command ctx)
    create_key_and_start c
