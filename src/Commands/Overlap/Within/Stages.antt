-- ===== src/Commands/Overlap/Within/Stages.antt =====
-- How many calls of the components each stage makes at most.
use gitlab_ci_fargate_arm_dr.Prelude.{ℕ, String, Bytes, Option, none, some, List, [], ◌∷◌}
use gitlab_ci_fargate_arm_dr.Go.Errors.{Error, wrapped}
use gitlab_ci_fargate_arm_dr.Context.{Context}
use gitlab_ci_fargate_arm_dr.Platform.{Platform, Result, ok, err, panic, Data, KeyPair}
use gitlab_ci_fargate_arm_dr.Platform.Program.{Program, ret, act, on_ok, wrap, ◌>>=◌, ◌>>◌}
use gitlab_ci_fargate_arm_dr.Aws.{stop_task}
use gitlab_ci_fargate_arm_dr.Task.Metadata.{get, clear}
use gitlab_ci_fargate_arm_dr.Keys.{create}
use gitlab_ci_fargate_arm_dr.Commands.Prepare.{
  PrepareCommand, start_new_fargate_task, persist_data_for_later_stages, default_bit_size,
}
use gitlab_ci_fargate_arm_dr.Commands.Prepare
use gitlab_ci_fargate_arm_dr.Commands.Prepare.Stored.{task_data}
use gitlab_ci_fargate_arm_dr.Commands.Run.{
  RunCommand, read_file_content, obtain_task_data, execute_script_on_task_container,
}
use gitlab_ci_fargate_arm_dr.Commands.Run
use gitlab_ci_fargate_arm_dr.Commands.Cleanup.{CleanupCommand}
use gitlab_ci_fargate_arm_dr.Commands.Cleanup
use gitlab_ci_fargate_arm_dr.Commands.Overlap.Programs.{
  Stage, prepares, runs, cleans_up, configures, program, prepare, cleanup, run_args,
  execute_script_file, stop_and_clear, wait_fargate_task_ready, started_or_stopped, persist_or_stop,
  wait_or_stop, complete_task, finish_task, start_and_finish, create_key_and_start,
}
use gitlab_ci_fargate_arm_dr.Commands.Overlap.Within.{
  Within, Within-more, >>=-Within, guarded-Within,
}

-- A bound for all stages.
abbrev pub most_steps : ℕ
most_steps = 11

module _ (P : Platform) where
  wait_or_stop-Within : (c : PrepareCommand) (arn : Bytes) → Within {P = P} 3 (wait_or_stop c arn)
  unfolding wait_or_stop wait_fargate_task_ready
  wait_or_stop-Within c arn =
      guarded-Within {A = Bytes} 2 c arn "waiting Fargate task to be ready: %w"
        (wait_fargate_task_ready c arn) waited
    where
      waited : Within {P = P} 2 (wait_fargate_task_ready c arn)
      waited (ok _) = λ r. tt
      waited (err _) = tt
      waited (panic _) = tt

  persist_or_stop-Within :
      (c : PrepareCommand) (f : String) (x : Data) → Within {P = P} 2 (persist_or_stop c f x)
  unfolding persist_or_stop
  persist_or_stop-Within c f x =
      guarded-Within {A = Unit {0}} 1 c x.task_arn f (act (persist_data_for_later_stages c x))
        λ r. tt

  complete_task-Within :
      (c : PrepareCommand) (arn key : Bytes) → Within {P = P} 5 (complete_task c arn key)
  unfolding complete_task
  complete_task-Within c arn key =
      let f : String = "persisting container IP for later stages: %w" in
      >>=-Within {A = Bytes} {B = Unit {0}} 3 2 (wait_or_stop c arn)
        (λ ip. persist_or_stop c f (task_data arn ip key)) (wait_or_stop-Within c arn)
        λ ip. persist_or_stop-Within c f (task_data arn ip key)

  finish_task-Within :
      (c : PrepareCommand) (arn key : Bytes) → Within {P = P} 7 (finish_task c arn key)
  unfolding finish_task
  finish_task-Within c arn key =
      let f : String = "persisting task ARN for later stages: %w" in
      >>=-Within {A = Unit {0}} {B = Unit {0}} 2 5 (persist_or_stop c f (task_data arn [] key))
        (λ _. complete_task c arn key) (persist_or_stop-Within c f (task_data arn [] key))
        λ _. complete_task-Within c arn key

  started_or_stopped-Within :
      (c : PrepareCommand) (started : Bytes × Option Error)
      → Within {P = P} 1 (started_or_stopped c started)
  unfolding started_or_stopped
  started_or_stopped-Within c (arn, none) = tt
  started_or_stopped-Within c (arn, some e) = failed
    where
      failed :
          (r : Result (Unit {0}))
          → Within {P = P} {A = Bytes} 0
              (on_ok (λ _. ret (err (wrapped "starting new Fargate task: %w" [] e))) r)
      failed (ok _) = tt
      failed (err _) = tt
      failed (panic _) = tt

  start_and_finish-Within :
      (c : PrepareCommand) (keys : KeyPair) → Within {P = P} 9 (start_and_finish c keys)
  unfolding start_and_finish
  start_and_finish-Within c keys =
      let finish : Bytes → Program P (Unit {0}) = λ arn. finish_task c arn keys.private_key in
      >>=-Within {A = Bytes × Option Error} {B = Unit {0}} 1 8
        (act (start_new_fargate_task c keys.public_key)) (λ r. started_or_stopped c r >>= finish)
        (λ r. tt)
        λ r.
          >>=-Within {A = Bytes} {B = Unit {0}} 1 7 (started_or_stopped c r) finish
            (started_or_stopped-Within c r) λ arn. finish_task-Within c arn keys.private_key

  create_key_and_start-Within : (c : PrepareCommand) → Within {P = P} 10 (create_key_and_start c)
  unfolding create_key_and_start
  create_key_and_start-Within c =
      >>=-Within {A = KeyPair} {B = Unit {0}} 1 9
        (wrap "generating public/private keys: %w" [] (act (create default_bit_size)))
        (start_and_finish c) (λ r. tt) (start_and_finish-Within c)

  prepare-Within : (ctx : Context) → Within {P = P} 11 (prepare ctx)
  unfolding prepare
  prepare-Within ctx =
      >>=-Within {A = PrepareCommand} {B = Unit {0}} 1 10
        (wrap "initializing PrepareCommand: %w" [] (act (Prepare.init_command ctx)))
        create_key_and_start (λ r. tt) create_key_and_start-Within

  stop_and_clear-Within : (c : CleanupCommand) → Within {P = P} 3 (stop_and_clear c)
  unfolding stop_and_clear
  stop_and_clear-Within c =
      let stop : Data → Program P (Unit {0}) = λ x.
        wrap "stopping Fargate Task %q: %w" (x.task_arn ∷ [])
          (act (stop_task c.aws_fargate x.task_arn c.cfg.fargate.cluster)) in
      let delete : Data → Program P (Unit {0}) = λ x.
        wrap "deleting metadata related to the stopped Fargate Task %q: %w" (x.task_arn ∷ [])
          (act (clear c.metadata_manager)) in
      >>=-Within {A = Data} {B = Unit {0}} 1 2
        (wrap "obtaining information about the running task: %w" [] (act (get c.metadata_manager)))
        (λ x. stop x >> delete x) (λ r. tt)
        λ x.
          >>=-Within {A = Unit {0}} {B = Unit {0}} 1 1 (stop x) (λ _. delete x) (λ r. tt) λ _ r. tt

  cleanup-Within : (ctx : Context) → Within {P = P} 4 (cleanup ctx)
  unfolding cleanup
  cleanup-Within ctx =
      >>=-Within {A = CleanupCommand} {B = Unit {0}} 1 3
        (wrap "initializing CleanupCommand: %w" [] (act (Cleanup.init_command ctx))) stop_and_clear
        (λ r. tt) stop_and_clear-Within

  execute_script_file-Within :
      (ctx : Context) (path : Bytes) → Within {P = P} 4 (execute_script_file ctx path)
  unfolding execute_script_file
  execute_script_file-Within ctx path =
      let execute : RunCommand → Bytes → Data → Program P (Unit {0}) = λ c script x.
        wrap "executing the script on the remote host: %w" []
          (act (execute_script_on_task_container x c.cfg.ssh script)) in
      let obtain : RunCommand → Program P Data = λ c.
        wrap "obtaining information about the running task: %w" [] (act (obtain_task_data c)) in
      let read : Program P Bytes =
        wrap "reading the script content: %w" [] (act (read_file_content path)) in
      >>=-Within {A = RunCommand} {B = Unit {0}} 1 3 (act (Run.init_command ctx))
        (λ c. read >>= λ script. obtain c >>= execute c script) (λ r. tt)
        λ c.
          >>=-Within {A = Bytes} {B = Unit {0}} 1 2 read (λ script. obtain c >>= execute c script)
            (λ r. tt)
            λ script.
              >>=-Within {A = Data} {B = Unit {0}} 1 1 (obtain c) (execute c script) (λ r. tt)
                λ x r. tt

  run_args-Within : (ctx : Context) (args : List Bytes) → Within {P = P} 4 (run_args ctx args)
  unfolding run_args
  run_args-Within ctx [] = tt
  run_args-Within ctx (path ∷ []) = tt
  run_args-Within ctx (path ∷ stage ∷ more) = execute_script_file-Within ctx path

  pub program-Within : (stage : Stage) → Within {P = P} most_steps (program stage)
  unfolding program
  program-Within (prepares ctx) = prepare-Within ctx
  program-Within (runs ctx) = Within-more 7 4 (run_args ctx ctx.args) (run_args-Within ctx ctx.args)
  program-Within (cleans_up ctx) = Within-more 7 4 (cleanup ctx) (cleanup-Within ctx)
  program-Within (configures v ctx) = λ r. tt
