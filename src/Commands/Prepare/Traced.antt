-- ===== src/Commands/Prepare/Traced.antt =====
-- What a successful prepare leaves for the later stages, and where each part of it is from.
use mathlib.Core.Path.{subst}
use gitlab_ci_fargate_arm_dr.Prelude.{
  ◌≡◌, ◌≢◌, sym, ap, ◌∙◌, inl, inr, refl, Bytes, List, some, none, [], ◌∷◌, arith,
}
use gitlab_ci_fargate_arm_dr.Runner.{Adapter}
use gitlab_ci_fargate_arm_dr.Platform.{Platform, State, ok, Data, KeyPair, IsFaithful, Call}
use gitlab_ci_fargate_arm_dr.Platform.Effects.{wrap, Result-cases, >>=-eq-ok}
use gitlab_ci_fargate_arm_dr.Aws.{wait_until_task_running, get_container_ip}
use gitlab_ci_fargate_arm_dr.Aws.Tasks.{started, stopped, tasks, IsInitialized, NamesTasks}
use gitlab_ci_fargate_arm_dr.Task.Metadata.{MetadataManager}
use gitlab_ci_fargate_arm_dr.Task.Metadata.Laws.{Stores}
use gitlab_ci_fargate_arm_dr.Keys.{create}
use gitlab_ci_fargate_arm_dr.Context.{Context}
use gitlab_ci_fargate_arm_dr.Commands.Prepare.{
  PrepareCommand, init_command, start_new_fargate_task, started_or_stopped, finish_task,
  start_and_finish, create_key_and_start, custom_execute, default_bit_size,
}
use gitlab_ci_fargate_arm_dr.Commands.Prepare.Steps.{
  finish_task-Handles, create-IsQuiet, init_command-IsQuiet, init_command-IsInitialized,
}
use gitlab_ci_fargate_arm_dr.Commands.Prepare.Tasks.{
  start_new_fargate_task-Starts, start_and_finish-started,
}
use gitlab_ci_fargate_arm_dr.Commands.Prepare.Stored.{
  job_manager, task_data, finish_task-Answered, init_command-manager, init_command-cfg,
}
use gitlab_ci_fargate_arm_dr.Commands.Prepare.Request.{request, start_new_fargate_task-calls}

module _ {P : Platform} where
  -- The task of `x` is the only one started since `s`, none was stopped, and `x` is stored.
  abbrev pub Keeps : MetadataManager → State P → State P → Type 0
  Keeps m s t =
      (x : Data) × Stores m x t × (tasks t.calls ≡ (x.task_arn ∷ started s.calls, stopped s.calls))

  -- A success of prepare from `s` to `t`, once the command `c` is made: `keys` were generated, the
  -- task of `x` was started with the public one, and `x` has the private one. At `w`, before the
  -- task was waited for, `x` was stored without an address; at `t` it is stored with the one that
  -- AWS answered. Since `before`, only that task was started, and none was stopped.
  pub record Traced (c : PrepareCommand) (before s t : State P) : Type 0 where
    pub x : Data
    pub keys : KeyPair
    pub w : State P
    pub generated : (create default_bit_size s).0 ≡ ok keys
    pub began :
        (start_new_fargate_task c keys.public_key (create default_bit_size s).1).0
        ≡ ok (x.task_arn, none)
    pub requested :
        let made = (create default_bit_size s).1 in
        let sent = request c.cfg keys.public_key in
        (start_new_fargate_task c keys.public_key made).1.calls
        ≡ Call.run_task sent (P.ecs_run_task made.calls sent) ∷ made.calls
    pub key : x.private_key ≡ keys.private_key
    pub early : Stores c.metadata_manager (task_data x.task_arn [] x.private_key) w
    pub running :
        (wait_until_task_running c.aws_fargate x.task_arn c.cfg.fargate.cluster w).0 ≡ ok tt
    pub answered :
        (get_container_ip c.aws_fargate x.task_arn c.cfg.fargate.cluster
          c.cfg.fargate.enable_public_ip
          (wait_until_task_running c.aws_fargate x.task_arn c.cfg.fargate.cluster w).1).0
        ≡ ok x.container_ip
    pub stored : Stores c.metadata_manager x t
    pub balance : tasks t.calls ≡ (x.task_arn ∷ started before.calls, stopped before.calls)

  start_and_finish-Traced :
      IsFaithful P
      → NamesTasks P
      → (c : PrepareCommand) (keys : KeyPair) (before s : State P) → IsInitialized c.aws_fargate
      → let made = (create default_bit_size s).1 in
        (create default_bit_size s).0 ≡ ok keys
        → tasks made.calls ≡ tasks before.calls
        → (start_and_finish c keys made).0 ≡ ok tt
        → Traced c before s (start_and_finish c keys made).1
  start_and_finish-Traced F N c keys before s ready generated quiet h =
      let made = (create default_bit_size s).1 in
      let began = start_new_fargate_task-Starts N c keys.public_key made in
      let t = (start_new_fargate_task c keys.public_key made).1 in
      elim (Result-cases (start_new_fargate_task c keys.public_key made).0) [
        | inl ((arn, none), e) ↦
            let same = start_and_finish-started c keys arn made e in
            let fresh : (tasks t.calls ≡ (arn ∷ started made.calls, stopped made.calls))
                × (arn ≢ []) =
              ground (arith, began) in
            let done = sym (ap (λ v. v.0) same) ∙ h in
            let (ip, w, early, rest) = finish_task-Answered F c arn keys.private_key t done in
            let (running, answered, stored) = rest in
            let unmoved : tasks (finish_task c arn keys.private_key t).1.calls ≡ tasks t.calls =
              ground (arith, finish_task-Handles c arn ready fresh.1 keys.private_key t, done) in
            subst (λ v. Traced c before s v.1) (sym same)
              (record {
                x = task_data arn ip keys.private_key;
                keys = keys;
                w = w;
                generated = generated;
                began = e;
                requested = start_new_fargate_task-calls c keys.public_key made ready;
                key = refl;
                early = early;
                running = running;
                answered = answered;
                stored = stored;
                balance =
                    unmoved
                    ∙ fresh.0
                    ∙ ap (λ (v : List Bytes × List Bytes). (arn ∷ v.0, v.1)) quiet;
              })
        | inl ((arn, some failure), e) ↦
            absurd (unfold start_and_finish started_or_stopped in ground arith)
        | inr (inl (failure, e)) ↦ absurd (ground (arith, began))
        | inr (inr (text, e)) ↦ absurd (unfold start_and_finish in ground arith)
      ]

  create_key_and_start-Traced :
      IsFaithful P
      → NamesTasks P
      → (c : PrepareCommand) (before s : State P) → IsInitialized c.aws_fargate
      → tasks s.calls ≡ tasks before.calls
      → (create_key_and_start c s).0 ≡ ok tt
      → Traced c before s (create_key_and_start c s).1
  unfolding create_key_and_start
  create_key_and_start-Traced F N c before s ready quiet h =
      let first = wrap "generating public/private keys: %w" [] (create default_bit_size) in
      let (keys, e, same, done) = >>=-eq-ok first (start_and_finish c) s h in
      let moved : (first s).1 ≡ (create default_bit_size s).1 = ground arith in
      subst (λ v. Traced c before s v.1) (sym same)
        (subst (λ v. Traced c before s (start_and_finish c keys v).1) (sym moved)
          (start_and_finish-Traced F N c keys before s ready (ground arith)
            (create-IsQuiet default_bit_size s ∙ quiet)
            (subst (λ v. (start_and_finish c keys v).0 ≡ ok tt) moved done)))

  pub custom_execute-Traced :
      IsFaithful P
      → NamesTasks P
      → (ctx : Context) (a : Adapter) (s : State P) → ctx.adapter ≡ some a
      → (custom_execute ctx s).0 ≡ ok tt
      → (c : PrepareCommand) × ((init_command ctx s).0 ≡ ok c)
        × (c.cfg ≡ ctx.config)
        × (c.metadata_manager ≡ job_manager P a ctx.config.task_metadata.directory)
        × Traced c s (init_command ctx s).1 (custom_execute ctx s).1
  unfolding custom_execute
  custom_execute-Traced F N ctx a s adapter h =
      let first = wrap "initializing PrepareCommand: %w" [] (init_command ctx) in
      let (c, e, same, done) = >>=-eq-ok first create_key_and_start s h in
      let made : (init_command ctx s).0 ≡ ok c = ground arith in
      let moved : (first s).1 ≡ (init_command ctx s).1 = ground arith in
      (
        c,
        made,
        init_command-cfg ctx c s made,
        init_command-manager ctx a c s adapter made,
        subst (λ v. Traced c s (init_command ctx s).1 v.1) (sym same)
            (subst (λ v. Traced c s (init_command ctx s).1 (create_key_and_start c v).1) (sym moved)
              (create_key_and_start-Traced F N c s (init_command ctx s).1
                (init_command-IsInitialized ctx c s made) (init_command-IsQuiet ctx s)
                (subst (λ v. (create_key_and_start c v).0 ≡ ok tt) moved done))),
      )

  -- If prepare succeeds, exactly one task was started and none stopped, and the metadata file of
  -- the job holds that task's data.
  pub custom_execute-Keeps :
      IsFaithful P
      → NamesTasks P
      → (ctx : Context) (a : Adapter) (s : State P) → ctx.adapter ≡ some a
      → (custom_execute ctx s).0 ≡ ok tt
      → Keeps (job_manager P a ctx.config.task_metadata.directory) s (custom_execute ctx s).1
  custom_execute-Keeps F N ctx a s adapter h =
      let (c, made, _, manager, r) = custom_execute-Traced F N ctx a s adapter h in
      (r.x, subst (λ m. Stores m r.x (custom_execute ctx s).1) manager r.stored, r.balance)
