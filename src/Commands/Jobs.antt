-- ===== src/Commands/Jobs.antt =====
-- Many jobs on one machine: the stages of all of them in any order, each stage a process of its own
-- that runs to its end before the next one starts. A job is live from a prepare that succeeds until a
-- cleanup that succeeds, or one that gives up on it. No process panics.
pub mod Accounts
pub mod Effects
pub mod Invariant
use gitlab_ci_fargate_arm_dr.Prelude.{
  ◌≡◌, ◌≢◌, refl, ℕ, suc, Bytes, text_eq, if◌then◌else◌, Option, none, some, List, [], ◌∷◌, ◌++◌,
  All,
}
use gitlab_ci_fargate_arm_dr.Go.Errors.{Error}
use gitlab_ci_fargate_arm_dr.Runner.{Adapter}
use gitlab_ci_fargate_arm_dr.Platform.{Platform, State, ok, err}
use gitlab_ci_fargate_arm_dr.Aws.Tasks.{stopped}
use gitlab_ci_fargate_arm_dr.Context.{Context}
use gitlab_ci_fargate_arm_dr.Task.Metadata.{MetadataManager, get_full_file_path}
use gitlab_ci_fargate_arm_dr.Commands.Prepare.Stored.{job_manager}
use gitlab_ci_fargate_arm_dr.Version.{VersionInfo}
use gitlab_ci_fargate_arm_dr.Commands.Config
use gitlab_ci_fargate_arm_dr.Commands.Prepare
use gitlab_ci_fargate_arm_dr.Commands.Run
use gitlab_ci_fargate_arm_dr.Commands.Cleanup

pub record Job : Type 0 where
  pub adapter : Adapter
  pub directory : Bytes

abbrev pub manager : Platform → Job → MetadataManager
manager P j = job_manager P j.adapter j.directory

abbrev pub file : Platform → Job → Bytes
file P j = get_full_file_path P.join (manager P j)

-- A process that works for the job.
abbrev pub Serves : Context → Job → Type 0
Serves ctx j = (ctx.adapter ≡ some j.adapter) × (ctx.config.task_metadata.directory ≡ j.directory)

pub record System (P : Platform) : Type 0 where
  pub state : State P
  pub live : List Job

-- The machine before its first job.
abbrev pub boot : (P : Platform) → P.Disk → System P
boot P d = record { state = record { calls = []; disk = d }; live = [] }

module _ {P : Platform} where
  pub data Step (s t : System P) : Type 0 where
    prepares :
        (ctx : Context) (j : Job)
        → Serves ctx j
        → All (λ k. file P k ≢ file P j) s.live
        → (Prepare.custom_execute ctx s.state).0 ≡ ok tt
        → t ≡ record { state = (Prepare.custom_execute ctx s.state).1; live = j ∷ s.live }
        → Step s t
    fails_to_prepare :
        (ctx : Context) (j : Job) (e : Error)
        → Serves ctx j
        → All (λ k. file P k ≢ file P j) s.live
        → (Prepare.custom_execute ctx s.state).0 ≡ err e
        → t ≡ record s { state = (Prepare.custom_execute ctx s.state).1 }
        → Step s t
    runs : (ctx : Context) → t ≡ record s { state = (Run.custom_execute ctx s.state).1 } → Step s t
    configures :
        (v : VersionInfo) (ctx : Context)
        → t ≡ record s { state = (Config.custom_execute v ctx s.state).1 }
        → Step s t
    cleans_up :
        (ctx : Context) (before : List Job) (j : Job) (after : List Job)
        → Serves ctx j
        → s.live ≡ before ++ (j ∷ after)
        → (Cleanup.custom_execute ctx s.state).0 ≡ ok tt
        → t ≡ record { state = (Cleanup.custom_execute ctx s.state).1; live = before ++ after }
        → Step s t
    -- A cleanup that failed may be tried again as long as it left the disk alone,
    tries_again :
        (ctx : Context) (before : List Job) (j : Job) (after : List Job) (e : Error)
        → Serves ctx j
        → s.live ≡ before ++ (j ∷ after)
        → (Cleanup.custom_execute ctx s.state).0 ≡ err e
        → (Cleanup.custom_execute ctx s.state).1.disk ≡ s.state.disk
        → t ≡ record s { state = (Cleanup.custom_execute ctx s.state).1 }
        → Step s t
    -- and the job may be given up once it asked AWS to stop a task.
    gives_up :
        (ctx : Context) (before : List Job) (j : Job) (after : List Job) (e : Error)
        → Serves ctx j
        → s.live ≡ before ++ (j ∷ after)
        → (Cleanup.custom_execute ctx s.state).0 ≡ err e
        → stopped (Cleanup.custom_execute ctx s.state).1.calls ≢ stopped s.state.calls
        → t ≡ record { state = (Cleanup.custom_execute ctx s.state).1; live = before ++ after }
        → Step s t

  pub data Reach (s : System P) : System P → Type 0 where
    here : Reach s s
    next : {t u : System P} → Reach s t → Step t u → Reach s u

-- How often a task stands in a list.
unfoldable pub count : Bytes → List Bytes → ℕ
count a [] = 0
count a (x ∷ xs) = if text_eq x a then suc (count a xs) else count a xs
