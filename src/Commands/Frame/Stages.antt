-- ===== src/Commands/Frame/Stages.antt =====
-- What whole stages do to a file that is not their own.
use gitlab_ci_fargate_arm_dr.Prelude.{
  ◌≡◌, ◌≢◌, refl, ap, ◌∙◌, inl, inr, String, Bytes, Option, none, some, [], ◌∷◌, arith,
}
use gitlab_ci_fargate_arm_dr.Go.Errors.{Error}
use gitlab_ci_fargate_arm_dr.Runner.{Adapter}
use gitlab_ci_fargate_arm_dr.Platform.{Platform, Data, KeyPair, IsFaithful}
use gitlab_ci_fargate_arm_dr.Platform.Effects.{M, ◌>>=◌, ◌>>◌, wrap, on_error, Result-cases}
use gitlab_ci_fargate_arm_dr.Aws.{AwsFargate, stop_task}
use gitlab_ci_fargate_arm_dr.Keys.{create}
use gitlab_ci_fargate_arm_dr.Task.Metadata.{get_full_file_path, persist, get, clear}
use gitlab_ci_fargate_arm_dr.Task.Metadata.Laws.{get-state}
use gitlab_ci_fargate_arm_dr.Context.{Context}
use gitlab_ci_fargate_arm_dr.Commands.Prepare.{
  PrepareCommand, start_new_fargate_task, stop_fargate_task_on_error, persist_data_for_later_stages,
  wait_fargate_task_ready, started_or_stopped, finish_task, persist_or_stop, wait_or_stop,
  complete_task, start_and_finish, create_key_and_start, default_bit_size,
}
use gitlab_ci_fargate_arm_dr.Commands.Cleanup.{CleanupCommand, stop_and_clear}
use gitlab_ci_fargate_arm_dr.Commands.Prepare
use gitlab_ci_fargate_arm_dr.Commands.Cleanup
use gitlab_ci_fargate_arm_dr.Commands.Prepare.Stored.{job_manager, task_data, init_command-manager}
use gitlab_ci_fargate_arm_dr.Commands.Cleanup.Laws.{init_command_lem}
use gitlab_ci_fargate_arm_dr.Commands.Frame.{
  Spares, >>=-Spares, wrap-Spares, on_error-Spares, init_command-Spares, cleanup_init-Spares,
  create-Spares, stop_on_error-Spares, start_new_fargate_task-Spares,
  wait_fargate_task_ready-Spares, persist-Spares, clear-Spares,
}

module _ {P : Platform} (F : IsFaithful P) (path : Bytes) where
  module _ (c : PrepareCommand) (apart : path ≢ get_full_file_path P.join c.metadata_manager) where
    persist_or_stop-Spares : (f : String) (x : Data) → Spares path (persist_or_stop {P = P} c f x)
    unfolding persist_or_stop persist_data_for_later_stages
    persist_or_stop-Spares f x =
        let stop = stop_fargate_task_on_error {P = P} c x.task_arn in
        let stored : M P (Unit {0}) =
          wrap "persisting metadata: %w" [] (persist c.metadata_manager x) in
        wrap-Spares path {A = Unit {0}} f [] (on_error stored stop) (
          on_error-Spares path {A = Unit {0}} stored stop
            (wrap-Spares path {A = Unit {0}} "persisting metadata: %w" []
              (persist c.metadata_manager x) (persist-Spares path F c.metadata_manager apart x))
            (stop_on_error-Spares path c x.task_arn))

    wait_or_stop-Spares : (arn : Bytes) → Spares path (wait_or_stop {P = P} c arn)
    unfolding wait_or_stop
    wait_or_stop-Spares arn =
        let stop = stop_fargate_task_on_error {P = P} c arn in
        wrap-Spares path {A = Bytes} "waiting Fargate task to be ready: %w" []
          (on_error (wait_fargate_task_ready c arn) stop)
          (on_error-Spares path {A = Bytes} (wait_fargate_task_ready c arn) stop
            (wait_fargate_task_ready-Spares path c arn) (stop_on_error-Spares path c arn))

    complete_task-Spares : (arn key : Bytes) → Spares path (complete_task {P = P} c arn key)
    unfolding complete_task
    complete_task-Spares arn key =
        >>=-Spares path {A = Bytes} (wait_or_stop c arn)
          (λ ip.
            persist_or_stop c "persisting container IP for later stages: %w" (task_data arn ip key))
          (wait_or_stop-Spares arn)
          λ ip.
            persist_or_stop-Spares "persisting container IP for later stages: %w"
              (task_data arn ip key)

    finish_task-Spares : (arn key : Bytes) → Spares path (finish_task {P = P} c arn key)
    unfolding finish_task
    finish_task-Spares arn key =
        >>=-Spares path {A = Unit {0}}
          (persist_or_stop c "persisting task ARN for later stages: %w" (task_data arn [] key))
          (λ _. complete_task c arn key)
          (persist_or_stop-Spares "persisting task ARN for later stages: %w" (task_data arn [] key))
          λ _. complete_task-Spares arn key

    started_or_stopped-Spares :
        (r : Bytes × Option Error) → Spares path (started_or_stopped {P = P} c r)
    unfolding started_or_stopped
    started_or_stopped-Spares (arn, none) s = (refl, refl)
    started_or_stopped-Spares (arn, some e) s = ground (arith, stop_on_error-Spares path c arn e s)

    start_and_finish-Spares : (keys : KeyPair) → Spares path (start_and_finish {P = P} c keys)
    unfolding start_and_finish
    start_and_finish-Spares keys =
        >>=-Spares path {A = Bytes × Option Error} (start_new_fargate_task c keys.public_key)
          (λ r. started_or_stopped c r >>= λ arn. finish_task c arn keys.private_key)
          (start_new_fargate_task-Spares path c keys.public_key)
          λ r.
            >>=-Spares path {A = Bytes} (started_or_stopped c r)
              (λ arn. finish_task c arn keys.private_key) (started_or_stopped-Spares r)
              λ arn. finish_task-Spares arn keys.private_key

    create_key_and_start-Spares : Spares path (create_key_and_start {P = P} c)
    unfolding create_key_and_start
    create_key_and_start-Spares =
        >>=-Spares path {A = KeyPair}
          (wrap "generating public/private keys: %w" [] (create default_bit_size))
          (start_and_finish c)
          (wrap-Spares path {A = KeyPair} "generating public/private keys: %w" []
            (create default_bit_size) (create-Spares path default_bit_size))
          start_and_finish-Spares

  stop_task-Spares :
      (a : AwsFargate) (arn cluster : Bytes) → Spares path (stop_task {P = P} a arn cluster)
  unfolding stop_task
  stop_task-Spares a arn cluster s = ground arith

  stop_and_clear-Spares :
      (c : CleanupCommand)
      → path ≢ get_full_file_path P.join c.metadata_manager
      → Spares path (stop_and_clear {P = P} c)
  unfolding stop_and_clear
  stop_and_clear-Spares c apart =
      let m = c.metadata_manager in
      let f : String = "obtaining information about the running task: %w" in
      let f2 : String = "stopping Fargate Task %q: %w" in
      let f3 : String = "deleting metadata related to the stopped Fargate Task %q: %w" in
      let stop : Data → M P (Unit {0}) =
        λ x. wrap f2 (x.task_arn ∷ []) (stop_task c.aws_fargate x.task_arn c.cfg.fargate.cluster) in
      let drop : Data → M P (Unit {0}) = λ x. wrap f3 (x.task_arn ∷ []) (clear m) in
      >>=-Spares path {A = Data} (wrap f [] (get m)) (λ x. stop x >> drop x)
        (wrap-Spares path {A = Data} f [] (get m) (λ s. ground (arith, get-state m s)))
        λ x.
          >>=-Spares path {A = Unit {0}} (stop x) (λ _. drop x)
            (wrap-Spares path {A = Unit {0}} f2 (x.task_arn ∷ [])
              (stop_task c.aws_fargate x.task_arn c.cfg.fargate.cluster)
              (stop_task-Spares c.aws_fargate x.task_arn c.cfg.fargate.cluster))
            λ _.
              wrap-Spares path {A = Unit {0}} f3 (x.task_arn ∷ []) (clear m)
                (clear-Spares path F m apart)

  -- The stages of a job leave a file alone that is not the job's.
  module _ (ctx : Context) (a : Adapter) (is : ctx.adapter ≡ some a)
      (apart : path
        ≢ get_full_file_path P.join (job_manager P a ctx.config.task_metadata.directory)) where
    pub prepare-Spares : Spares path (Prepare.custom_execute {P = P} ctx)
    unfolding Prepare.custom_execute
    prepare-Spares s =
        let first = wrap "initializing PrepareCommand: %w" [] (Prepare.init_command {P = P} ctx) in
        elim (Result-cases (Prepare.init_command {P = P} ctx s).0) [
          | inl (c, e) ↦
              let own = init_command-manager ctx a c s is e in
              let apart' : path ≢ get_full_file_path P.join c.metadata_manager =
                λ h. apart (h ∙ ap (get_full_file_path P.join) own) in
              ground (
                arith,
                init_command-Spares path ctx s,
                create_key_and_start-Spares c apart' (Prepare.init_command {P = P} ctx s).1,
              )
          | inr (inl (failure, e)) ↦ ground (arith, init_command-Spares path ctx s)
          | inr (inr (text, e)) ↦ ground (arith, init_command-Spares path ctx s)
        ]

    pub cleanup-Spares : Spares path (Cleanup.custom_execute {P = P} ctx)
    unfolding Cleanup.custom_execute
    cleanup-Spares s = elim (Result-cases (Cleanup.init_command {P = P} ctx s).0) [
      | inl (c, e) ↦
          let (_, own, _, _) = init_command_lem ctx a c s is e in
          let apart' : path ≢ get_full_file_path P.join c.metadata_manager =
            λ h. apart (h ∙ ap (get_full_file_path P.join) own) in
          ground (
            arith,
            cleanup_init-Spares path ctx s,
            stop_and_clear-Spares c apart' (Cleanup.init_command {P = P} ctx s).1,
          )
      | inr (inl (failure, e)) ↦ ground (arith, cleanup_init-Spares path ctx s)
      | inr (inr (text, e)) ↦ ground (arith, cleanup_init-Spares path ctx s)
    ]
