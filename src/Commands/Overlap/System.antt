-- ===== src/Commands/Overlap/System.antt =====
-- The processes of many jobs and the steps between which they take turns. GitLab Runner runs the
-- stages of one job one after the other; those of different jobs overlap. A prepare may be tried
-- again after it failed, and run, config and cleanup may come after any stage, however it ended.
use gitlab_ci_fargate_arm_dr.Prelude.{◌≡◌, ◌≢◌, List, [], ◌∷◌, ◌++◌, map, All}
use gitlab_ci_fargate_arm_dr.Platform.{Platform, State, Result, ok, err, panic}
use gitlab_ci_fargate_arm_dr.Platform.Effects.{M}
use gitlab_ci_fargate_arm_dr.Platform.Program.{Program, ret, call}
use gitlab_ci_fargate_arm_dr.Context.{Context}
use gitlab_ci_fargate_arm_dr.Commands.Jobs.{Job, file, Serves}
use gitlab_ci_fargate_arm_dr.Commands.Overlap.Programs.{
  Stage, prepares, runs, cleans_up, configures, program,
}

abbrev pub context : Stage → Context
context (prepares ctx) = ctx
context (runs ctx) = ctx
context (cleans_up ctx) = ctx
context (configures v ctx) = ctx

-- A process of a job: its stage, and what is left to do of it.
pub record Process (P : Platform) : Type 1 where
  pub job : Job
  pub stage : Stage
  pub rest : Program P (Unit {0})

abbrev pub begin : {P : Platform} → Job → Stage → Process P
begin j stage = record { job = j; stage = stage; rest = program stage }

-- The stages of one job that ran follow each other in one process of the list.
pub record System (P : Platform) : Type 1 where
  pub state : State P
  pub processes : List (Process P)

abbrev pub boot : (P : Platform) → P.Disk → System P
boot P d = record { state = record { calls = []; disk = d }; processes = [] }

abbrev pub jobs : {P : Platform} → List (Process P) → List Job
jobs = map (λ q. q.job)

-- The job may leave: its prepare failed, or its cleanup succeeded.
abbrev pub Done : Stage → Result (Unit {0}) → Type 0
Done (prepares ctx) (ok _) = ⊥
Done (prepares ctx) (err _) = Unit
Done (prepares ctx) (panic _) = ⊥
Done (cleans_up ctx) (ok _) = Unit
Done (cleans_up ctx) (err _) = ⊥
Done (cleans_up ctx) (panic _) = ⊥
Done (runs ctx) r = ⊥
Done (configures v ctx) r = ⊥

-- Which stages may come after a stage that ended.
abbrev pub Follows : Stage → Result (Unit {0}) → Stage → Type 0
Follows stage r (prepares ctx) = Done stage r
Follows stage r (runs ctx) = Unit
Follows stage r (cleans_up ctx) = Unit
Follows stage r (configures v ctx) = Unit

module _ {P : Platform} where
  pub data Step (s t : System P) : Type 1 where
    -- A new job, whose file is not that of another.
    arrives :
        (ctx : Context) (j : Job)
        → Serves ctx j
        → All (λ k. file P k ≢ file P j) (jobs s.processes)
        → t ≡ record s { processes = begin j (prepares ctx) ∷ s.processes }
        → Step s t
    -- One process takes one step.
    acts :
        {B : Type 0} (before : List (Process P)) (q : Process P) (after : List (Process P))
        (m : M P B) (f : Result B → Program P (Unit {0}))
        → s.processes ≡ before ++ (q ∷ after)
        → q.rest ≡ call m f
        → t ≡ record {
          state = (m s.state).1;
          processes = before ++ (record q { rest = f (m s.state).0 } ∷ after);
        }
        → Step s t
    -- The next stage of a job.
    goes_on :
        (before : List (Process P)) (q : Process P) (after : List (Process P))
        (r : Result (Unit {0})) (stage : Stage)
        → s.processes ≡ before ++ (q ∷ after)
        → q.rest ≡ ret r
        → Serves (context stage) q.job
        → Follows q.stage r stage
        → t ≡ record s { processes = before ++ (begin q.job stage ∷ after) }
        → Step s t
    departs :
        (before : List (Process P)) (q : Process P) (after : List (Process P))
        (r : Result (Unit {0}))
        → s.processes ≡ before ++ (q ∷ after)
        → q.rest ≡ ret r
        → Done q.stage r
        → t ≡ record s { processes = before ++ after }
        → Step s t

  pub data Reach (s : System P) : System P → Type 1 where
    here : Reach s s
    next : {t u : System P} → Reach s t → Step t u → Reach s u
