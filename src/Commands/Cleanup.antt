-- ===== src/Commands/Cleanup.antt =====
-- The cleanup stage (cmd/fargate/commands/custom/cleanup.go).
pub mod Laws
use gitlab_ci_fargate_arm_dr.Prelude.{[], ◌∷◌}
use gitlab_ci_fargate_arm_dr.Config.{Global}
use gitlab_ci_fargate_arm_dr.Platform.{Platform}
use gitlab_ci_fargate_arm_dr.Platform.Effects.{M, ◌>>=◌, ◌>>◌, pure, wrap}
use gitlab_ci_fargate_arm_dr.Aws.{AwsFargate, new_fargate, init, stop_task}
use gitlab_ci_fargate_arm_dr.Task.Metadata.{MetadataManager, new_metadata_manager, get, clear}
use gitlab_ci_fargate_arm_dr.Context.{Context}

pub record CleanupCommand : Type 0 where
  pub cfg : Global
  pub aws_fargate : AwsFargate
  pub metadata_manager : MetadataManager

module _ {P : Platform} where
  unfoldable pub init_command : Context → M P CleanupCommand
  init_command ctx = do
    fargate ←
        wrap "initializing Fargate adapter: %w" [] (init (new_fargate ctx.config.fargate.region))
    manager ← new_metadata_manager ctx.adapter ctx.config.task_metadata.directory
    pure (record { cfg = ctx.config; aws_fargate = fargate; metadata_manager = manager })

  -- `CustomExecute` once the command is initialised.
  unfoldable pub stop_and_clear : CleanupCommand → M P (Unit {0})
  stop_and_clear c = do
    x ← wrap "obtaining information about the running task: %w" [] (get c.metadata_manager)
    wrap "stopping Fargate Task %q: %w" (x.task_arn ∷ [])
        (stop_task c.aws_fargate x.task_arn c.cfg.fargate.cluster)
    wrap "deleting metadata related to the stopped Fargate Task %q: %w" (x.task_arn ∷ [])
        (clear c.metadata_manager)

  unfoldable pub custom_execute : Context → M P (Unit {0})
  custom_execute ctx = do
    c ← wrap "initializing CleanupCommand: %w" [] (init_command ctx)
    stop_and_clear c
