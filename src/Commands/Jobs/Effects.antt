-- ===== src/Commands/Jobs/Effects.antt =====
-- What a stage does to the tasks, and to the files of other jobs.
use gitlab_ci_fargate_arm_dr.Prelude.{
  ◌≡◌, ◌≢◌, ap, ◌∙◌, ◌⊎◌, inl, inr, Bytes, some, List, [], ◌∷◌, arith, All,
}
use gitlab_ci_fargate_arm_dr.Runner.{Adapter}
use gitlab_ci_fargate_arm_dr.Platform.{Platform, State, Data, IsFaithful, RoundTrips}
use gitlab_ci_fargate_arm_dr.Platform.Effects.{Result-cases}
use gitlab_ci_fargate_arm_dr.Aws.Tasks.{started, stopped, tasks, IsQuiet, init-IsQuiet}
use gitlab_ci_fargate_arm_dr.Aws.{new_fargate}
use gitlab_ci_fargate_arm_dr.Task.Metadata.{get_full_file_path, new_metadata_manager}
use gitlab_ci_fargate_arm_dr.Context.{Context}
use gitlab_ci_fargate_arm_dr.Task.Metadata.Laws.{Stores, Stores-of_disk}
use gitlab_ci_fargate_arm_dr.Commands.Frame.{SameFile}
use gitlab_ci_fargate_arm_dr.Commands.Frame.Stages.{prepare-Spares, cleanup-Spares}
use gitlab_ci_fargate_arm_dr.Commands.Prepare.Stored.{job_manager}
use gitlab_ci_fargate_arm_dr.Commands.Cleanup.Laws.{init_command_lem, stop_and_clear-stopped}
use gitlab_ci_fargate_arm_dr.Version.{VersionInfo}
use gitlab_ci_fargate_arm_dr.Commands.Config
use gitlab_ci_fargate_arm_dr.Commands.Prepare
use gitlab_ci_fargate_arm_dr.Commands.Cleanup
use gitlab_ci_fargate_arm_dr.Commands.Jobs.{Job, manager, file, Serves}

pub own :
    (P : Platform) (ctx : Context) (j : Job)
    → Serves ctx j
    → job_manager P j.adapter ctx.config.task_metadata.directory ≡ manager P j
own P ctx j serves = ap (job_manager P j.adapter) serves.1

-- The file of another job is not the one that the process works on.
elsewhere :
    (P : Platform) (ctx : Context) (j : Job) (path : Bytes)
    → Serves ctx j
    → path ≢ file P j
    → path ≢ get_full_file_path P.join (job_manager P j.adapter ctx.config.task_metadata.directory)
elsewhere P ctx j path serves apart e =
    apart (e ∙ ap (get_full_file_path P.join) (own P ctx j serves))

module _ {P : Platform} where
  pub config-quiet :
      (v : VersionInfo) (ctx : Context) (s : State P)
      → ((Config.custom_execute v ctx s).1.disk ≡ s.disk)
        × (tasks (Config.custom_execute v ctx s).1.calls ≡ tasks s.calls)
  unfolding Config.custom_execute Config.write_custom_executor_config
      Config.create_unique_identifier_for_hostname
  config-quiet v ctx s = (ground arith, ground arith)

  pub cleanup_init-IsQuiet : (ctx : Context) → IsQuiet {P = P} (Cleanup.init_command ctx)
  unfolding Cleanup.init_command new_metadata_manager
  cleanup_init-IsQuiet ctx s =
      ground (arith, init-IsQuiet (new_fargate ctx.config.fargate.region) s)

  -- A cleanup of a stored task leaves the tasks alone, or asks to stop that one.
  pub cleanup-tasks :
      (ctx : Context) (a : Adapter) (x : Data) (s : State P)
      → ctx.adapter ≡ some a
      → RoundTrips P x
      → Stores (job_manager P a ctx.config.task_metadata.directory) x s
      → (tasks (Cleanup.custom_execute ctx s).1.calls ≡ tasks s.calls)
        ⊎ (tasks (Cleanup.custom_execute ctx s).1.calls
            ≡ (started s.calls, x.task_arn ∷ stopped s.calls))
  unfolding Cleanup.custom_execute
  cleanup-tasks ctx a x s is json stored = elim (Result-cases (Cleanup.init_command ctx s).0) [
    | inl (c, e) ↦
        let (ready, own, disk, quiet) = init_command_lem ctx a c s is e in
        let s1 = (Cleanup.init_command ctx s).1 in
        let stored1 : Stores c.metadata_manager x s1 =
          rw own (Stores-of_disk _ x s s1 disk stored) in
        inr (ground (arith, stop_and_clear-stopped c x s1 ready json stored1))
    | inr (inl (failure, e)) ↦ inl (ground (arith, cleanup_init-IsQuiet ctx s))
    | inr (inr (text, e)) ↦ inl (ground (arith, cleanup_init-IsQuiet ctx s))
  ]

  -- A state in which only the process's own file may differ.
  pub frame_of_Spares :
      (js : List Job) (j : Job) (s t : State P)
      → ((path : Bytes) → path ≢ file P j → SameFile path s t)
      → All (λ k. file P k ≢ file P j) js
      → All (λ k. SameFile (file P k) s t) js
  frame_of_Spares [] j s t h d = tt
  frame_of_Spares (k ∷ js) j s t h d = (h (file P k) d.0, frame_of_Spares js j s t h d.1)

  pub frame_of_disk :
      (js : List Job) (s t : State P) → t.disk ≡ s.disk → All (λ k. SameFile (file P k) s t) js
  frame_of_disk [] s t h = tt
  frame_of_disk (k ∷ js) s t h = (
    (ap (λ d. P.exists d (file P k)) h, ap (λ d. P.read_file d (file P k)) h),
    frame_of_disk js s t h,
  )

  module _ (ctx : Context) (j : Job) (serves : Serves ctx j) where
    module _ (F : IsFaithful P) where
      pub prepare_frame :
          (js : List Job) (s : State P)
          → All (λ k. file P k ≢ file P j) js
          → All (λ k. SameFile (file P k) s (Prepare.custom_execute ctx s).1) js
      prepare_frame js s = frame_of_Spares js j s (Prepare.custom_execute ctx s).1 λ path apart.
          prepare-Spares F path ctx j.adapter serves.0 (elsewhere P ctx j path serves apart) s

      pub cleanup_frame :
          (js : List Job) (s : State P)
          → All (λ k. file P k ≢ file P j) js
          → All (λ k. SameFile (file P k) s (Cleanup.custom_execute ctx s).1) js
      cleanup_frame js s = frame_of_Spares js j s (Cleanup.custom_execute ctx s).1 λ path apart.
          cleanup-Spares F path ctx j.adapter serves.0 (elsewhere P ctx j path serves apart) s
