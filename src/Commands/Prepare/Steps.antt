-- ===== src/Commands/Prepare/Steps.antt =====
-- The steps of the prepare stage and the tasks that they start and stop.
use gitlab_ci_fargate_arm_dr.Prelude.{ℕ, String, ◌≡◌, ◌≢◌, inl, inr, Bytes, List, [], ◌∷◌, arith}
use gitlab_ci_fargate_arm_dr.Go.Errors.{Error}
use gitlab_ci_fargate_arm_dr.Platform.{Platform, State, Result, ok, err, panic, Data}
use gitlab_ci_fargate_arm_dr.Platform.Effects.{M, ◌>>=◌, wrap, on_error, Result-cases}
use gitlab_ci_fargate_arm_dr.Aws.{new_fargate, wait_until_task_running}
use gitlab_ci_fargate_arm_dr.Aws.Tasks.{
  started, stopped, tasks, IsInitialized, IsQuiet, init-IsQuiet, init-IsInitialized,
  wait_until_task_running-IsQuiet, get_container_ip-IsQuiet, stop_task-stopped,
}
use gitlab_ci_fargate_arm_dr.Task.Metadata.{new_metadata_manager, persist}
use gitlab_ci_fargate_arm_dr.Keys.{create}
use gitlab_ci_fargate_arm_dr.Context.{Context}
use gitlab_ci_fargate_arm_dr.Commands.Prepare.{
  PrepareCommand, init_command, stop_fargate_task_on_error, persist_data_for_later_stages,
  wait_fargate_task_ready, finish_task, persist_or_stop, wait_or_stop, complete_task,
}

module _ {P : Platform} where
  pub create-IsQuiet : (bits : ℕ) → IsQuiet {P = P} (create bits)
  unfolding create
  create-IsQuiet bits s = ground arith

  pub init_command-IsQuiet : (ctx : Context) → IsQuiet {P = P} (init_command ctx)
  unfolding init_command new_metadata_manager
  init_command-IsQuiet ctx s =
      ground (arith, init-IsQuiet (new_fargate ctx.config.fargate.region) s)

  pub init_command-IsInitialized :
      (ctx : Context) (c : PrepareCommand) (s : State P)
      → (init_command ctx s).0 ≡ ok c
      → IsInitialized c.aws_fargate
  unfolding init_command new_metadata_manager
  init_command-IsInitialized ctx c s h =
      ground (arith, init-IsInitialized (new_fargate ctx.config.fargate.region) c.aws_fargate s)

  pub persist_data-IsQuiet :
      (c : PrepareCommand) (x : Data) → IsQuiet {P = P} (persist_data_for_later_stages c x)
  unfolding persist_data_for_later_stages persist
  persist_data-IsQuiet c x s = ground arith

  pub wait_fargate_task_ready-IsQuiet :
      (c : PrepareCommand) (arn : Bytes) → IsQuiet {P = P} (wait_fargate_task_ready c arn)
  unfolding wait_fargate_task_ready
  wait_fargate_task_ready-IsQuiet c arn s = ground (
    arith,
    wait_until_task_running-IsQuiet c.aws_fargate arn c.cfg.fargate.cluster s,
    get_container_ip-IsQuiet c.aws_fargate arn c.cfg.fargate.cluster c.cfg.fargate.enable_public_ip
        (wait_until_task_running c.aws_fargate arn c.cfg.fargate.cluster s).1,
  )

  -- How a step that looks after the task `arn` ends: it left the tasks alone, or it failed and asked
  -- to stop the task.
  abbrev pub Handles : {A : Type 0} → Bytes → Result A × State P → List Bytes × List Bytes → Type 0
  Handles arn (ok _, t) h = tasks t.calls ≡ h
  Handles arn (err _, t) h = tasks t.calls ≡ (h.0, arn ∷ h.1)
  Handles arn (panic _, t) h = Unit

  module _ (c : PrepareCommand) (arn : Bytes) (ready : IsInitialized c.aws_fargate)
      (named : arn ≢ []) where
    pub stop_on_error-stopped :
        (e : Error) (s : State P)
        → tasks (stop_fargate_task_on_error c arn e s).1.calls
          ≡ (started s.calls, arn ∷ stopped s.calls)
    unfolding stop_fargate_task_on_error
    stop_on_error-stopped e s =
        ground (arith, stop_task-stopped c.aws_fargate arn c.cfg.fargate.cluster s)

    guarded-Handles :
        {A : Type 0} (f : String) (args : List Bytes) (m : M P A) (s : State P)
        → IsQuiet m
        → Handles arn
            (wrap f args (on_error m (stop_fargate_task_on_error c arn)) s)
            (tasks s.calls)
    guarded-Handles f args m s quiet = elim (Result-cases (m s).0) [
      | inl (a, e) ↦ ground (arith, quiet s)
      | inr (inl (failure, e)) ↦ ground (arith, quiet s, stop_on_error-stopped failure (m s).1)
      | inr (inr (t, e)) ↦ ground arith
    ]

    >>=-Handles :
        {A B : Type 0} (m : M P A) (f : A → M P B) (s : State P)
        → Handles arn (m s) (tasks s.calls)
        → ((a : A) (t : State P) → Handles arn (f a t) (tasks t.calls))
        → Handles arn ((m >>= f) s) (tasks s.calls)
    >>=-Handles m f s h k = elim (Result-cases (m s).0) [
      | inl (a, e) ↦ ground (arith, k a (m s).1)
      | inr (inl (failure, e)) ↦ ground arith
      | inr (inr (t, e)) ↦ ground arith
    ]

    wait_or_stop-Handles : (s : State P) → Handles arn (wait_or_stop c arn s) (tasks s.calls)
    unfolding wait_or_stop
    wait_or_stop-Handles s =
        guarded-Handles {A = Bytes} _ [] (wait_fargate_task_ready c arn) s
          (wait_fargate_task_ready-IsQuiet c arn)

    persist_or_stop-Handles :
        (f : String) (ip key : Bytes) (s : State P)
        → let x : Data = record { task_arn = arn; container_ip = ip; private_key = key } in
          Handles arn (persist_or_stop c f x s) (tasks s.calls)
    unfolding persist_or_stop
    persist_or_stop-Handles f ip key s =
        let x : Data = record { task_arn = arn; container_ip = ip; private_key = key } in
        guarded-Handles {A = Unit {0}} f [] (persist_data_for_later_stages c x) s
          (persist_data-IsQuiet c x)

    complete_task-Handles :
        (key : Bytes) (s : State P) → Handles arn (complete_task c arn key s) (tasks s.calls)
    unfolding complete_task
    complete_task-Handles key s =
        >>=-Handles {A = Bytes} {B = Unit {0}} (wait_or_stop c arn)
          (λ ip.
            persist_or_stop c _ (record { task_arn = arn; container_ip = ip; private_key = key }))
          s (wait_or_stop-Handles s) λ ip t. persist_or_stop-Handles _ ip key t

    pub finish_task-Handles :
        (key : Bytes) (s : State P) → Handles arn (finish_task c arn key s) (tasks s.calls)
    unfolding finish_task
    finish_task-Handles key s =
        >>=-Handles {A = Unit {0}} {B = Unit {0}}
          (persist_or_stop c _ (record { task_arn = arn; container_ip = []; private_key = key }))
          (λ _. complete_task c arn key) s (persist_or_stop-Handles _ [] key s)
          λ _ t. complete_task-Handles key t
