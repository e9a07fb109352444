-- ===== src/Commands/Lifecycle.antt =====
-- The stages of one job in order: prepare, any number of runs, cleanup (docs/README.md). Each stage
-- is a process of its own; the disk and the history of calls go from one to the next.
use mathlib.Core.Path.{subst}
use gitlab_ci_fargate_arm_dr.Prelude.{◌≡◌, refl, sym, ◌∙◌, Bytes, some, List, [], ◌∷◌, arith}
use gitlab_ci_fargate_arm_dr.Runner.{Adapter}
use gitlab_ci_fargate_arm_dr.Platform.{Platform, State, ok, Data, IsFaithful, RoundTrips}
use gitlab_ci_fargate_arm_dr.Aws.Tasks.{started, stopped, tasks, NamesTasks}
use gitlab_ci_fargate_arm_dr.Task.Metadata.{get}
use gitlab_ci_fargate_arm_dr.Task.Metadata.Laws.{Stores, Stores-of_disk}
use gitlab_ci_fargate_arm_dr.Context.{Context}
use gitlab_ci_fargate_arm_dr.Commands.Prepare.Stored.{job_manager}
use gitlab_ci_fargate_arm_dr.Commands.Prepare.Traced.{Keeps, custom_execute-Keeps as prepare-Keeps}
use gitlab_ci_fargate_arm_dr.Commands.Run.Laws.{
  custom_execute-disk as run-disk, custom_execute-tasks as run-tasks,
}
use gitlab_ci_fargate_arm_dr.Commands.Cleanup.Laws.{absent, custom_execute-stops as cleanup-stops}
use gitlab_ci_fargate_arm_dr.Commands.Prepare
use gitlab_ci_fargate_arm_dr.Commands.Run
use gitlab_ci_fargate_arm_dr.Commands.Cleanup

-- A process of the job: its adapter and its metadata directory.
abbrev pub IsOf : Adapter → Bytes → Context → Type 0
IsOf a directory ctx = (ctx.adapter ≡ some a) × (ctx.config.task_metadata.directory ≡ directory)

module _ {P : Platform} where
  -- The state after the run stages, each with its own arguments; a failed one does not stop the next.
  abbrev pub after_runs : List Context → State P → State P
  after_runs [] s = s
  after_runs (ctx ∷ more) s = after_runs more (Run.custom_execute ctx s).1

  after_runs_lem :
      (runs : List Context) (s : State P)
      → ((after_runs runs s).disk ≡ s.disk) × (tasks (after_runs runs s).calls ≡ tasks s.calls)
  after_runs_lem [] s = (refl, refl)
  after_runs_lem (ctx ∷ more) s =
      let (disk, quiet) = after_runs_lem more (Run.custom_execute ctx s).1 in
      (disk ∙ run-disk ctx s, quiet ∙ run-tasks ctx s)

  -- A job whose prepare and cleanup succeed leaves no task and no file behind, whatever its runs
  -- did: one task was started, exactly that task was stopped, and its metadata file is gone.
  -- Prepare and cleanup have the same adapter and metadata directory. Assumed are a faithful
  -- file system, that ECS gives a started task an ARN that is not empty, and that what prepare
  -- stored survives JSON.
  pub lifecycle_balanced :
      IsFaithful P
      → NamesTasks P
      → (a : Adapter) (directory : Bytes) (prepare cleanup : Context) (runs : List Context)
        (s : State P)
      → IsOf a directory prepare
      → IsOf a directory cleanup
      → ((x : Data)
          → Stores (job_manager P a directory) x (Prepare.custom_execute prepare s).1
          → RoundTrips P x)
      → (Prepare.custom_execute prepare s).0 ≡ ok tt
      → (Cleanup.custom_execute cleanup (after_runs runs (Prepare.custom_execute prepare s).1)).0
        ≡ ok tt
      → let t =
          (Cleanup.custom_execute cleanup
            (after_runs runs (Prepare.custom_execute prepare s).1)).1 in
        (arn : Bytes) × (tasks t.calls ≡ (arn ∷ started s.calls, arn ∷ stopped s.calls))
        × ((get (job_manager P a directory) t).0 ≡ absent P (job_manager P a directory))
  lifecycle_balanced F N a directory prepare cleanup runs s hp hc json done cleaned =
      let s1 = (Prepare.custom_execute prepare s).1 in
      let s2 = after_runs runs s1 in
      let (x, stored, opened) =
        subst (λ d. Keeps (job_manager P a d) s s1) hp.1
          (prepare-Keeps F N prepare a s hp.0 done) in
      let (disk, quiet) = after_runs_lem runs s1 in
      let kept = Stores-of_disk (job_manager P a directory) x s1 s2 disk stored in
      let (closed, gone) =
        cleanup-stops F cleanup a x s2 hc.0 (json x stored)
          (subst (λ d. Stores (job_manager P a d) x s2) (sym hc.1) kept) cleaned in
      (
        x.task_arn,
        ground (arith, closed, quiet, opened),
        subst
            (λ d.
              (get (job_manager P a d) (Cleanup.custom_execute cleanup s2).1).0
              ≡ absent P (job_manager P a d))
            hc.1 gone,
      )
