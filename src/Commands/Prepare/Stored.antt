-- ===== src/Commands/Prepare/Stored.antt =====
-- What the steps of the prepare stage store, and the address that they ask for.
use mathlib.Core.Path.{subst}
use gitlab_ci_fargate_arm_dr.Prelude.{String, ◌≡◌, sym, inl, inr, Bytes, some, [], arith}
use gitlab_ci_fargate_arm_dr.Runner.{Adapter}
use gitlab_ci_fargate_arm_dr.Platform.{Platform, State, ok, Data, IsFaithful}
use gitlab_ci_fargate_arm_dr.Platform.Effects.{Result-cases, >>=-eq-ok}
use gitlab_ci_fargate_arm_dr.Aws.{wait_until_task_running, get_container_ip}
use gitlab_ci_fargate_arm_dr.Task.Filename.{generate_filename}
use gitlab_ci_fargate_arm_dr.Task.Metadata.{
  MetadataManager, new_metadata_manager, persist, runner_data,
}
use gitlab_ci_fargate_arm_dr.Task.Metadata.Laws.{Stores, persist-Stores}
use gitlab_ci_fargate_arm_dr.Context.{Context}
use gitlab_ci_fargate_arm_dr.Commands.Prepare.{
  PrepareCommand, init_command, persist_data_for_later_stages, finish_task, persist_or_stop,
  wait_or_stop, complete_task, wait_fargate_task_ready,
}

-- The manager of a job's metadata file.
abbrev pub job_manager : Platform → Adapter → Bytes → MetadataManager
job_manager P a directory = record {
  directory = directory;
  filename = generate_filename P.sha256 (runner_data a);
}

-- The data that the later stages need.
abbrev pub task_data : Bytes → Bytes → Bytes → Data
task_data arn ip key = record { task_arn = arn; container_ip = ip; private_key = key }

module _ {P : Platform} where
  persist_or_stop-Stores :
      IsFaithful P
      → (c : PrepareCommand) (f : String) (x : Data) (s : State P)
      → (persist_or_stop c f x s).0 ≡ ok tt
      → Stores c.metadata_manager x (persist_or_stop c f x s).1
  unfolding persist_or_stop persist_data_for_later_stages
  persist_or_stop-Stores F c f x s h = elim (Result-cases (persist c.metadata_manager x s).0) [
    | inl (u, e) ↦
        let same : (persist_or_stop c f x s).1 ≡ (persist c.metadata_manager x s).1 =
          ground arith in
        rw same (persist-Stores F c.metadata_manager x s e)
    | inr (inl (failure, e)) ↦ absurd (ground arith)
    | inr (inr (text, e)) ↦ absurd (ground arith)
  ]

  -- The task of `x` runs at `w`, AWS answers its address, and `x` is stored at `t`.
  abbrev pub Answered : PrepareCommand → Data → State P → State P → Type 0
  Answered c x w t =
      ((wait_until_task_running c.aws_fargate x.task_arn c.cfg.fargate.cluster w).0 ≡ ok tt)
      × ((get_container_ip c.aws_fargate x.task_arn c.cfg.fargate.cluster
            c.cfg.fargate.enable_public_ip
            (wait_until_task_running c.aws_fargate x.task_arn c.cfg.fargate.cluster w).1).0
          ≡ ok x.container_ip)
      × Stores c.metadata_manager x t

  wait_or_stop_lem :
      (c : PrepareCommand) (arn ip : Bytes) (w : State P)
      → (wait_or_stop c arn w).0 ≡ ok ip
      → ((wait_until_task_running c.aws_fargate arn c.cfg.fargate.cluster w).0 ≡ ok tt)
        × ((get_container_ip c.aws_fargate arn c.cfg.fargate.cluster c.cfg.fargate.enable_public_ip
              (wait_until_task_running c.aws_fargate arn c.cfg.fargate.cluster w).1).0
            ≡ ok ip)
  unfolding wait_or_stop wait_fargate_task_ready
  wait_or_stop_lem c arn ip w h = ground arith

  complete_task-Answered :
      IsFaithful P
      → (c : PrepareCommand) (arn key : Bytes) (w : State P) → (complete_task c arn key w).0 ≡ ok tt
      → (ip : Bytes) × Answered c (task_data arn ip key) w (complete_task c arn key w).1
  unfolding complete_task
  complete_task-Answered F c arn key w h =
      let (ip, e, same, done) =
        >>=-eq-ok (wait_or_stop c arn)
          (λ ip.
            persist_or_stop c "persisting container IP for later stages: %w" (task_data arn ip key))
          w h in
      let (running, answered) = wait_or_stop_lem c arn ip w e in
      (
        ip,
        (
          running,
          answered,
          subst (λ v. Stores c.metadata_manager (task_data arn ip key) v.1) (sym same)
              (persist_or_stop-Stores F c _ (task_data arn ip key) (wait_or_stop c arn w).1 done),
        ),
      )

  pub finish_task-Answered :
      IsFaithful P
      → (c : PrepareCommand) (arn key : Bytes) (s : State P) → (finish_task c arn key s).0 ≡ ok tt
      → (ip : Bytes) × (w : State P) × Stores c.metadata_manager (task_data arn [] key) w
        × Answered c (task_data arn ip key) w (finish_task c arn key s).1
  unfolding finish_task
  finish_task-Answered F c arn key s h =
      let first =
        persist_or_stop c "persisting task ARN for later stages: %w" (task_data arn [] key) in
      let (_, e, same, done) = >>=-eq-ok first (λ _. complete_task c arn key) s h in
      let (ip, rest) = complete_task-Answered F c arn key (first s).1 done in
      (
        ip,
        (first s).1,
        persist_or_stop-Stores F c _ (task_data arn [] key) s e,
        subst (λ v. Answered c (task_data arn ip key) (first s).1 v.1) (sym same) rest,
      )

  pub init_command-manager :
      (ctx : Context) (a : Adapter) (c : PrepareCommand) (s : State P)
      → ctx.adapter ≡ some a
      → (init_command ctx s).0 ≡ ok c
      → c.metadata_manager ≡ job_manager P a ctx.config.task_metadata.directory
  unfolding init_command new_metadata_manager
  init_command-manager ctx a c s e h = ground arith

  pub init_command-cfg :
      (ctx : Context) (c : PrepareCommand) (s : State P)
      → (init_command ctx s).0 ≡ ok c
      → c.cfg ≡ ctx.config
  unfolding init_command
  init_command-cfg ctx c s h = ground arith
