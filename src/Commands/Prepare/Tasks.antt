-- ===== src/Commands/Prepare/Tasks.antt =====
-- How the prepare stage ends (cmd/fargate/commands/custom/prepare.go), by the tasks that it started
-- and stopped.
use gitlab_ci_fargate_arm_dr.Prelude.{
  String, ◌≡◌, ◌≢◌, ◌∙◌, ◌⊎◌, inl, inr, Bytes, some, none, List, [], ◌∷◌, arith,
}
use mathlib.Core.Path.{subst}
use gitlab_ci_fargate_arm_dr.Platform.{Platform, State, Result, ok, err, panic, KeyPair}
use gitlab_ci_fargate_arm_dr.Platform.Effects.{M, ◌>>=◌, wrap, Result-cases}
use gitlab_ci_fargate_arm_dr.Aws.Tasks.{
  started, stopped, tasks, IsInitialized, NamesTasks, IsQuiet, Starts, run_task-Starts,
}
use gitlab_ci_fargate_arm_dr.Keys.{create}
use gitlab_ci_fargate_arm_dr.Context.{Context}
use gitlab_ci_fargate_arm_dr.Commands.Prepare.{
  PrepareCommand, init_command, start_new_fargate_task, stop_fargate_task_on_error,
  started_or_stopped, finish_task, start_and_finish, create_key_and_start, custom_execute,
  task_settings, connection_settings, default_bit_size,
}
use gitlab_ci_fargate_arm_dr.Commands.Prepare.Steps.{
  create-IsQuiet, init_command-IsQuiet, init_command-IsInitialized, Handles, finish_task-Handles,
}

module _ {P : Platform} where
  -- How prepare ends, from the state before it.
  abbrev pub Settles : Result (Unit {0}) × State P → State P → Type 0
  Settles (ok _, t) s = (arn : Bytes) × (tasks t.calls ≡ (arn ∷ started s.calls, stopped s.calls))
  Settles (err _, t) s =
      (tasks t.calls ≡ tasks s.calls)
      ⊎ ((arn : Bytes) × (tasks t.calls ≡ (arn ∷ started s.calls, arn ∷ stopped s.calls)))
  Settles (panic _, t) s = Unit

  pub start_new_fargate_task-Starts :
      NamesTasks P
      → (c : PrepareCommand) (key : Bytes) (s : State P) → Starts (start_new_fargate_task c key s) s
  unfolding start_new_fargate_task
  start_new_fargate_task-Starts N c key s = ground (
    arith,
    run_task-Starts N c.aws_fargate (task_settings c.cfg key) (connection_settings c.cfg) s,
  )

  Handles-Settles :
      (arn : Bytes) (r : Result (Unit {0})) (s t : State P)
      → Handles arn (r, t) (arn ∷ started s.calls, stopped s.calls)
      → Settles (r, t) s
  Handles-Settles arn (ok _) s t h = (arn, h)
  Handles-Settles arn (err e) s t h = inr (arn, h)
  Handles-Settles arn (panic _) s t h = tt

  pub start_and_finish-started :
      (c : PrepareCommand) (keys : KeyPair) (arn : Bytes) (s : State P)
      → (start_new_fargate_task c keys.public_key s).0 ≡ ok (arn, none)
      → start_and_finish c keys s
        ≡ finish_task c arn keys.private_key (start_new_fargate_task c keys.public_key s).1
  unfolding start_and_finish started_or_stopped
  start_and_finish-started c keys arn s h = ground arith

  start_and_finish-Settles :
      NamesTasks P
      → (c : PrepareCommand) (keys : KeyPair) (s : State P) → IsInitialized c.aws_fargate
      → Settles (start_and_finish c keys s) s
  start_and_finish-Settles N c keys s ready =
      let h = start_new_fargate_task-Starts N c keys.public_key s in
      let t = (start_new_fargate_task c keys.public_key s).1 in
      elim (Result-cases (start_new_fargate_task c keys.public_key s).0) [
        | inl ((arn, none), e) ↦
            let began : (tasks t.calls ≡ (arn ∷ started s.calls, stopped s.calls)) × (arn ≢ []) =
              ground (arith, h) in
            rw (start_and_finish-started c keys arn s e) (
              Handles-Settles arn (finish_task c arn keys.private_key t).0 s _ (
                subst (λ k. Handles arn (finish_task c arn keys.private_key t) k) began.0
                  (finish_task-Handles c arn ready began.1 keys.private_key t)))
        | inl ((arn, some failure), e) ↦
            unfold start_and_finish started_or_stopped stop_fargate_task_on_error in
            ground (arith, h)
        | inr (inl (failure, e)) ↦ absurd (ground (arith, h))
        | inr (inr (text, e)) ↦ unfold start_and_finish in ground (arith, h)
      ]

  Settles-of_tasks :
      (r : Result (Unit {0})) (s t u : State P)
      → tasks t.calls ≡ tasks s.calls
      → Settles (r, u) t
      → Settles (r, u) s
  Settles-of_tasks (ok _) s t u e (arn, h) = (arn, ground arith)
  Settles-of_tasks (err _) s t u e (inl h) = inl (h ∙ e)
  Settles-of_tasks (err _) s t u e (inr (arn, h)) = inr (arn, ground arith)
  Settles-of_tasks (panic _) s t u e h = tt

  -- A quiet step in front changes nothing, whether it succeeds or fails.
  quiet-Settles :
      {A : Type 0} (m : M P A) (f : A → M P (Unit {0})) (s : State P)
      → IsQuiet m
      → ((a : A) → (m s).0 ≡ ok a → Settles (f a (m s).1) (m s).1)
      → Settles ((m >>= f) s) s
  quiet-Settles m f s quiet h = elim (Result-cases (m s).0) [
    | inl (a, e) ↦
        let next : (m >>= f) s ≡ f a (m s).1 = ground arith in
        rw next (Settles-of_tasks (f a (m s).1).0 s (m s).1 _ (quiet s) (h a e))
    | inr (inl (failure, e)) ↦ ground (arith, quiet s)
    | inr (inr (text, e)) ↦ ground arith
  ]

  pub wrap-IsQuiet :
      {A : Type 0} (f : String) (args : List Bytes) (m : M P A)
      → IsQuiet m
      → IsQuiet (wrap f args m)
  wrap-IsQuiet f args m quiet s = ground (arith, quiet s)

  create_key_and_start-Settles :
      NamesTasks P
      → (c : PrepareCommand) (s : State P) → IsInitialized c.aws_fargate
      → Settles (create_key_and_start c s) s
  unfolding create_key_and_start
  create_key_and_start-Settles N c s ready =
      quiet-Settles {A = KeyPair}
        (wrap "generating public/private keys: %w" [] (create default_bit_size))
        (start_and_finish c) s
        (wrap-IsQuiet _ [] (create default_bit_size) (create-IsQuiet default_bit_size))
        λ keys _. start_and_finish-Settles N c keys _ ready

  -- If prepare succeeds, one task was started and none stopped; if it returns an error, either
  -- no task was started and none stopped, or one was started and its stop was requested. ECS is
  -- assumed to give a started task an ARN that is not empty. Nothing is said of a panic.
  pub custom_execute-Settles :
      NamesTasks P → (ctx : Context) (s : State P) → Settles (custom_execute ctx s) s
  unfolding custom_execute
  custom_execute-Settles N ctx s =
      quiet-Settles {A = PrepareCommand}
        (wrap "initializing PrepareCommand: %w" [] (init_command ctx)) create_key_and_start s
        (wrap-IsQuiet _ [] (init_command ctx) (init_command-IsQuiet ctx))
        λ c e.
          create_key_and_start-Settles N c _ (init_command-IsInitialized ctx c s (ground arith))
