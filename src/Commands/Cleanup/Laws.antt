-- ===== src/Commands/Cleanup/Laws.antt =====
-- What the cleanup stage stops and deletes, and what it keeps when a step fails.
use mathlib.Core.Path.{subst}
use gitlab_ci_fargate_arm_dr.Prelude.{◌≡◌, sym, ap, ◌∙◌, Bytes, some, [], ◌∷◌, arith}
use gitlab_ci_fargate_arm_dr.Go.Errors.{Error, wrapped, sentinel, Sentinel}
use gitlab_ci_fargate_arm_dr.Runner.{Adapter}
use gitlab_ci_fargate_arm_dr.Platform.{
  Platform, State, Result, ok, err, Data, RoundTrips, IsFaithful,
}
use gitlab_ci_fargate_arm_dr.Platform.Effects.{wrap, >>=-eq-ok}
use gitlab_ci_fargate_arm_dr.Aws.{AwsFargate, init, new_fargate, stop_task}
use gitlab_ci_fargate_arm_dr.Aws.Tasks.{started, stopped, tasks, IsInitialized, stop_task-stopped}
use gitlab_ci_fargate_arm_dr.Task.Metadata.{
  MetadataManager, new_metadata_manager, get, clear, get_full_file_path,
}
use gitlab_ci_fargate_arm_dr.Task.Metadata.Laws.{Stores, get-of_Stores, Stores-of_disk, clear-get}
use gitlab_ci_fargate_arm_dr.Context.{Context}
use gitlab_ci_fargate_arm_dr.Commands.Prepare.Stored.{job_manager}
use gitlab_ci_fargate_arm_dr.Commands.Cleanup.{
  CleanupCommand, init_command, stop_and_clear, custom_execute,
}

-- The answer of a read where the file of `m` is not there.
abbrev pub absent : Platform → MetadataManager → Result Data
absent P m = err (
    wrapped "trying to access file %q: %w" (get_full_file_path P.join m ∷ [])
      (sentinel Sentinel.not_exist))

module _ {P : Platform} where
  -- What the initialisation gives, and that it leaves disk and tasks alone.
  pub init_command_lem :
      (ctx : Context) (a : Adapter) (c : CleanupCommand) (s : State P)
      → ctx.adapter ≡ some a
      → (init_command ctx s).0 ≡ ok c
      → IsInitialized c.aws_fargate
        × (c.metadata_manager ≡ job_manager P a ctx.config.task_metadata.directory)
        × ((init_command ctx s).1.disk ≡ s.disk)
        × (tasks (init_command ctx s).1.calls ≡ tasks s.calls)
  unfolding init_command new_metadata_manager init
  init_command_lem ctx a c s e h = (
    record {
      ecs = ctx.config.fargate.region;
      ec2 = ctx.config.fargate.region;
      ecs_svc = unfold new_fargate in ground arith;
      ec2_svc = unfold new_fargate in ground arith;
    },
    ground arith,
    ground arith,
    unfold new_fargate in ground arith,
  )

  pub stop_and_clear-stopped :
      (c : CleanupCommand) (x : Data) (s : State P)
      → IsInitialized c.aws_fargate
      → RoundTrips P x
      → Stores c.metadata_manager x s
      → tasks (stop_and_clear c s).1.calls ≡ (started s.calls, x.task_arn ∷ stopped s.calls)
  unfolding stop_and_clear clear
  stop_and_clear-stopped c x s ready json stored = ground (
    arith,
    get-of_Stores c.metadata_manager x s json stored,
    stop_task-stopped c.aws_fargate x.task_arn c.cfg.fargate.cluster s ready,
  )

  pub stop_task-disk :
      (a : AwsFargate) (arn cluster : Bytes) (s : State P)
      → (stop_task a arn cluster s).1.disk ≡ s.disk
  unfolding stop_task
  stop_task-disk a arn cluster s = ground arith

  -- The read of the file after `stop_and_clear`: it is gone after a success.
  stop_and_clear-get :
      IsFaithful P
      → (c : CleanupCommand) (x : Data) (s : State P) → RoundTrips P x
      → Stores c.metadata_manager x s
      → (stop_and_clear c s).0 ≡ ok tt
      → (get c.metadata_manager (stop_and_clear c s).1).0 ≡ absent P c.metadata_manager
  unfolding stop_and_clear
  stop_and_clear-get F c x s json stored h = ground (
    arith,
    get-of_Stores c.metadata_manager x s json stored,
    clear-get F c.metadata_manager (stop_task c.aws_fargate x.task_arn c.cfg.fargate.cluster s).1,
  )

  -- If AWS refuses the stop, cleanup fails and the task's data stays where it was.
  stop_and_clear-keeps :
      (c : CleanupCommand) (x : Data) (e : Error) (s : State P)
      → RoundTrips P x
      → Stores c.metadata_manager x s
      → (stop_task c.aws_fargate x.task_arn c.cfg.fargate.cluster s).0 ≡ err e
      → ((stop_and_clear c s).0 ≡ err (wrapped "stopping Fargate Task %q: %w" (x.task_arn ∷ []) e))
        × ((stop_and_clear c s).1.disk ≡ s.disk)
  unfolding stop_and_clear
  stop_and_clear-keeps c x e s json stored h = (
    ground (arith, get-of_Stores c.metadata_manager x s json stored),
    ground (
      arith,
      get-of_Stores c.metadata_manager x s json stored,
      stop_task-disk c.aws_fargate x.task_arn c.cfg.fargate.cluster s,
    ),
  )

  -- If the metadata file of the job holds a task's data, which survives JSON, and cleanup
  -- succeeds, the stop of that task was requested, no task was started, and the file is gone: a
  -- later read fails with `os.ErrNotExist`. The runner adapter is initialised; a faithful file
  -- system is assumed.
  pub custom_execute-stops :
      IsFaithful P
      → (ctx : Context) (a : Adapter) (x : Data) (s : State P) → ctx.adapter ≡ some a
      → RoundTrips P x
      → Stores (job_manager P a ctx.config.task_metadata.directory) x s
      → (custom_execute ctx s).0 ≡ ok tt
      → let m = job_manager P a ctx.config.task_metadata.directory in
        let t = (custom_execute ctx s).1 in
        (tasks t.calls ≡ (started s.calls, x.task_arn ∷ stopped s.calls))
        × ((get m t).0 ≡ absent P m)
  unfolding custom_execute
  custom_execute-stops F ctx a x s adapter json stored h =
      let m = job_manager P a ctx.config.task_metadata.directory in
      let t = (init_command ctx s).1 in
      let (c, e, _, _) =
        >>=-eq-ok (wrap "initializing CleanupCommand: %w" [] (init_command ctx)) stop_and_clear s
          h in
      let made : (init_command ctx s).0 ≡ ok c = ground arith in
      let same : custom_execute ctx s ≡ stop_and_clear c t = ground arith in
      let (ready, named, disk, quiet) = init_command_lem ctx a c s adapter made in
      let kept : Stores c.metadata_manager x t = rw named (Stores-of_disk m x s t disk stored) in
      let gone = stop_and_clear-get F c x t json kept (sym (ap (λ v. v.0) same) ∙ h) in
      (
        ap (λ v. tasks v.1.calls) same
            ∙ stop_and_clear-stopped c x t ready json kept
            ∙ ground (arith, quiet),
        subst (λ v. (get m v.1).0 ≡ absent P m) (sym same)
            (subst (λ n. (get n (stop_and_clear c t).1).0 ≡ absent P n) named gone),
      )

  -- If the metadata file of the job holds a task's data, which survives JSON, the command is
  -- initialised and AWS refuses the stop of that task, cleanup returns the error and the disk is
  -- as it was, so that the data is still there for another attempt.
  pub custom_execute-keeps :
      (ctx : Context) (a : Adapter) (c : CleanupCommand) (x : Data) (e : Error) (s : State P)
      → ctx.adapter ≡ some a
      → RoundTrips P x
      → Stores (job_manager P a ctx.config.task_metadata.directory) x s
      → (init_command ctx s).0 ≡ ok c
      → (stop_task c.aws_fargate x.task_arn c.cfg.fargate.cluster (init_command ctx s).1).0 ≡ err e
      → ((custom_execute ctx s).0
          ≡ err (wrapped "stopping Fargate Task %q: %w" (x.task_arn ∷ []) e))
        × ((custom_execute ctx s).1.disk ≡ s.disk)
  unfolding custom_execute
  custom_execute-keeps ctx a c x e s adapter json stored began refused =
      let m = job_manager P a ctx.config.task_metadata.directory in
      let (ready, named, disk, quiet) = init_command_lem ctx a c s adapter began in
      let t = (init_command ctx s).1 in
      let kept : Stores c.metadata_manager x t = rw named (Stores-of_disk m x s t disk stored) in
      let (fails, same) = stop_and_clear-keeps c x e t json kept refused in
      (ground arith, ground arith)
