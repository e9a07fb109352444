-- ===== src/Aws/Tasks.antt =====
-- Which tasks the calls of the adapter start and stop.
use gitlab_ci_fargate_arm_dr.Prelude.{
  ◌⊎◌, inl, inr, String, ◌≡◌, ◌≢◌, refl, Bytes, Bool, Option, none, some, List, [], ◌∷◌, arith,
}
use gitlab_ci_fargate_arm_dr.Platform.{
  Platform, State, Result, ok, err, panic, Call, History, RunTaskInput,
}
use gitlab_ci_fargate_arm_dr.Go.Errors.{Error}
use gitlab_ci_fargate_arm_dr.Platform.Effects.{M}
use gitlab_ci_fargate_arm_dr.Aws.{
  AwsFargate, TaskSettings, ConnectionSettings, init, run_task, wait_until_task_running, stop_task,
  get_container_ip, run_task_input,
}

-- The ARNs of the tasks that were started, and of those whose stop was requested.
abbrev pub started : History → List Bytes
started [] = []
started (Call.run_task input (ok (some arn ∷ more)) ∷ h) = arn ∷ started h
started (_ ∷ h) = started h

abbrev pub stopped : History → List Bytes
stopped [] = []
stopped (Call.stop_task cluster arn ∷ h) = arn ∷ stopped h
stopped (_ ∷ h) = stopped h

abbrev pub tasks : History → List Bytes × List Bytes
tasks h = (started h, stopped h)

-- Both clients are there.
pub record IsInitialized (a : AwsFargate) : Type 0 where
  pub ecs : Bytes
  pub ec2 : Bytes
  pub ecs_svc : a.ecs_svc ≡ some ecs
  pub ec2_svc : a.ec2_svc ≡ some ec2

-- Every task that ECS starts has an ARN that is not empty.
pub record NamesTasks (P : Platform) : Type 0 where
  pub arn-ne-nil :
      (h : History) (input : RunTaskInput) (arn : Bytes) (more : List (Option Bytes))
      → P.ecs_run_task h input ≡ ok (some arn ∷ more)
      → arn ≢ []

-- The shapes of an answer of `RunTask`.
pub answer_cases :
    (r : Result (List (Option Bytes)))
    → ((arn : Bytes) × (more : List (Option Bytes)) × (r ≡ ok (some arn ∷ more)))
      ⊎ ((more : List (Option Bytes)) × (r ≡ ok (none ∷ more)))
      ⊎ (r ≡ ok [])
      ⊎ ((e : Error) × (r ≡ err e))
      ⊎ ((t : String) × (r ≡ panic t))
answer_cases (ok (some arn ∷ more)) = inl (arn, more, refl)
answer_cases (ok (none ∷ more)) = inr (inl (more, refl))
answer_cases (ok []) = inr (inr (inl refl))
answer_cases (err e) = inr (inr (inr (inl (e, refl))))
answer_cases (panic t) = inr (inr (inr (inr (t, refl))))

module _ {P : Platform} where
  -- An action that starts and stops no task.
  abbrev pub IsQuiet : {A : Type 0} → M P A → Type 0
  IsQuiet m = (s : State P) → tasks (m s).1.calls ≡ tasks s.calls

  pub init-IsQuiet : (a : AwsFargate) → IsQuiet (init a)
  unfolding init
  init-IsQuiet a s = ground arith

  pub init-IsInitialized : (a b : AwsFargate) (s : State P) → (init a s).0 ≡ ok b → IsInitialized b
  unfolding init
  init-IsInitialized a b s h = record {
    ecs = a.aws_region;
    ec2 = a.aws_region;
    ecs_svc = ground arith;
    ec2_svc = ground arith;
  }

  pub wait_until_task_running-IsQuiet :
      (a : AwsFargate) (arn cluster : Bytes) → IsQuiet (wait_until_task_running a arn cluster)
  unfolding wait_until_task_running
  wait_until_task_running-IsQuiet a arn cluster s = ground arith

  pub get_container_ip-IsQuiet :
      (a : AwsFargate) (arn cluster : Bytes) (public : Bool)
      → IsQuiet (get_container_ip a arn cluster public)
  unfolding get_container_ip
  get_container_ip-IsQuiet a arn cluster public s = ground arith

  -- A stop request by an initialised adapter is recorded, whatever AWS answers.
  pub stop_task-stopped :
      (a : AwsFargate) (arn cluster : Bytes) (s : State P)
      → IsInitialized a
      → tasks (stop_task a arn cluster s).1.calls ≡ (started s.calls, arn ∷ stopped s.calls)
  unfolding stop_task
  stop_task-stopped a arn cluster s h = ground arith

  -- What `RunTask` did, by its answer: a task with the ARN was started, or none was and the ARN is
  -- empty.
  abbrev pub Starts : Result (Bytes × Option Error) × State P → State P → Type 0
  Starts (ok (arn, none), t) s =
      (tasks t.calls ≡ (arn ∷ started s.calls, stopped s.calls)) × (arn ≢ [])
  Starts (ok (arn, some e), t) s = (tasks t.calls ≡ tasks s.calls) × (arn ≡ [])
  Starts (err e, t) s = ⊥
  Starts (panic _, t) s = tasks t.calls ≡ tasks s.calls

  pub run_task-Starts :
      NamesTasks P
      → (a : AwsFargate) (t : TaskSettings) (c : ConnectionSettings) (s : State P)
      → Starts (run_task a t c s) s
  unfolding run_task
  run_task-Starts N a t c s = elim (answer_cases (P.ecs_run_task s.calls (run_task_input t c))) [
    | inl (arn, more, e) ↦ let named = N.arn-ne-nil s.calls _ arn more e in ground arith
    | inr (inl (more, e)) ↦ ground arith
    | inr (inr (inl e)) ↦ ground arith
    | inr (inr (inr (inl (failure, e)))) ↦ ground arith
    | inr (inr (inr (inr (text, e)))) ↦ ground arith
  ]
