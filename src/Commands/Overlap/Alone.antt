-- ===== src/Commands/Overlap/Alone.antt =====
-- A stage that no other process interrupts.
use gitlab_ci_fargate_arm_dr.Prelude.{
  arith, ◌≡◌, refl, String, Bytes, Option, none, some, List, [], ◌∷◌,
}
use gitlab_ci_fargate_arm_dr.Go.Errors.{Error}
use gitlab_ci_fargate_arm_dr.Platform.{Platform, State, Data, KeyPair}
use gitlab_ci_fargate_arm_dr.Platform.Effects.{M}
use gitlab_ci_fargate_arm_dr.Platform.Effects
use gitlab_ci_fargate_arm_dr.Platform.Program.{act, run, Runs, >>=-Runs}
use gitlab_ci_fargate_arm_dr.Platform.Program
use gitlab_ci_fargate_arm_dr.Keys.{create}
use gitlab_ci_fargate_arm_dr.Context.{Context}
use gitlab_ci_fargate_arm_dr.Commands.Config
use gitlab_ci_fargate_arm_dr.Commands.Prepare.{
  PrepareCommand, start_new_fargate_task, stop_fargate_task_on_error, persist_data_for_later_stages,
  default_bit_size,
}
use gitlab_ci_fargate_arm_dr.Commands.Prepare
use gitlab_ci_fargate_arm_dr.Commands.Prepare.Stored.{task_data}
use gitlab_ci_fargate_arm_dr.Commands.Run
use gitlab_ci_fargate_arm_dr.Commands.Cleanup.{CleanupCommand}
use gitlab_ci_fargate_arm_dr.Commands.Cleanup
use gitlab_ci_fargate_arm_dr.Commands.Overlap.Programs.{
  Stage, prepares, runs, cleans_up, configures, program, prepare, cleanup,
}
use gitlab_ci_fargate_arm_dr.Commands.Overlap.Programs

-- The function that the stage is.
abbrev pub stage_action : {P : Platform} → Stage → M P (Unit {0})
stage_action (prepares ctx) = Prepare.custom_execute ctx
stage_action (runs ctx) = Run.custom_execute ctx
stage_action (cleans_up ctx) = Cleanup.custom_execute ctx
stage_action (configures v ctx) = Config.custom_execute v ctx

module _ {P : Platform} where
  wait_fargate_task_ready-Runs :
      (c : PrepareCommand) (arn : Bytes) (s : State P)
      → run (Programs.wait_fargate_task_ready c arn) s ≡ Prepare.wait_fargate_task_ready c arn s
  unfolding Programs.wait_fargate_task_ready Prepare.wait_fargate_task_ready
  wait_fargate_task_ready-Runs c arn s = ground arith

  persist_or_stop-Runs :
      (c : PrepareCommand) (format : String) (x : Data) (s : State P)
      → run (Programs.persist_or_stop c format x) s ≡ Prepare.persist_or_stop c format x s
  unfolding Programs.persist_or_stop Prepare.persist_or_stop
  persist_or_stop-Runs c format x s = ground arith

  wait_or_stop-Runs :
      (c : PrepareCommand) (arn : Bytes) (s : State P)
      → run (Programs.wait_or_stop c arn) s ≡ Prepare.wait_or_stop c arn s
  unfolding Programs.wait_or_stop Prepare.wait_or_stop Programs.wait_fargate_task_ready
      Prepare.wait_fargate_task_ready
  wait_or_stop-Runs c arn s = ground arith

  stop_and_clear-Runs :
      (c : CleanupCommand) (s : State P)
      → run (Programs.stop_and_clear c) s ≡ Cleanup.stop_and_clear c s
  unfolding Programs.stop_and_clear Cleanup.stop_and_clear
  stop_and_clear-Runs c s = ground arith

  complete_task-Runs :
      (c : PrepareCommand) (arn key : Bytes)
      → Runs {P = P} (Programs.complete_task c arn key) (Prepare.complete_task c arn key)
  unfolding Programs.complete_task Prepare.complete_task
  complete_task-Runs c arn key =
      let f : String = "persisting container IP for later stages: %w" in
      >>=-Runs {A = Bytes} {B = Unit {0}} (Programs.wait_or_stop c arn)
        (λ ip. Programs.persist_or_stop c f (task_data arn ip key)) (Prepare.wait_or_stop c arn)
        (λ ip. Prepare.persist_or_stop c f (task_data arn ip key)) (wait_or_stop-Runs c arn)
        λ ip. persist_or_stop-Runs c f (task_data arn ip key)

  finish_task-Runs :
      (c : PrepareCommand) (arn key : Bytes)
      → Runs {P = P} (Programs.finish_task c arn key) (Prepare.finish_task c arn key)
  unfolding Programs.finish_task Prepare.finish_task
  finish_task-Runs c arn key =
      let f : String = "persisting task ARN for later stages: %w" in
      let x = task_data arn [] key in
      >>=-Runs {A = Unit {0}} {B = Unit {0}} (Programs.persist_or_stop c f x)
        (λ _. Programs.complete_task c arn key) (Prepare.persist_or_stop c f x)
        (λ _. Prepare.complete_task c arn key) (persist_or_stop-Runs c f x)
        λ _. complete_task-Runs c arn key

  started_or_stopped-Runs :
      (c : PrepareCommand) (r : Bytes × Option Error)
      → Runs {P = P} (Programs.started_or_stopped c r) (Prepare.started_or_stopped c r)
  unfolding Programs.started_or_stopped Prepare.started_or_stopped
  started_or_stopped-Runs c (arn, none) s = refl
  started_or_stopped-Runs c (arn, some e) s = ground arith

  start_and_finish-Runs :
      (c : PrepareCommand) (keys : KeyPair)
      → Runs {P = P} (Programs.start_and_finish c keys) (Prepare.start_and_finish c keys)
  unfolding Programs.start_and_finish Prepare.start_and_finish
  start_and_finish-Runs c keys =
      let finish : Bytes → Program.Program P (Unit {0}) =
        λ arn. Programs.finish_task {P = P} c arn keys.private_key in
      let go : Bytes → M P (Unit {0}) = λ arn. Prepare.finish_task {P = P} c arn keys.private_key in
      >>=-Runs {A = Bytes × Option Error} {B = Unit {0}}
        (act (start_new_fargate_task c keys.public_key))
        (λ r. Program.◌>>=◌ (Programs.started_or_stopped c r) finish)
        (start_new_fargate_task c keys.public_key)
        (λ r. Effects.◌>>=◌ (Prepare.started_or_stopped c r) go) (λ s. refl)
        λ r.
          >>=-Runs {A = Bytes} {B = Unit {0}} (Programs.started_or_stopped c r) finish
            (Prepare.started_or_stopped c r) go (started_or_stopped-Runs c r)
            λ arn. finish_task-Runs c arn keys.private_key

  create_key_and_start-Runs :
      (c : PrepareCommand)
      → Runs {P = P} (Programs.create_key_and_start c) (Prepare.create_key_and_start c)
  unfolding Programs.create_key_and_start Prepare.create_key_and_start
  create_key_and_start-Runs c =
      let f : String = "generating public/private keys: %w" in
      >>=-Runs {A = KeyPair} {B = Unit {0}} (Program.wrap f [] (act (create default_bit_size)))
        (Programs.start_and_finish c) (Effects.wrap f [] (create default_bit_size))
        (Prepare.start_and_finish c) (λ s. ground arith) (start_and_finish-Runs c)

  prepare-Runs : (ctx : Context) → Runs {P = P} (Programs.prepare ctx) (Prepare.custom_execute ctx)
  unfolding Programs.prepare Prepare.custom_execute
  prepare-Runs ctx =
      let f : String = "initializing PrepareCommand: %w" in
      >>=-Runs {A = PrepareCommand} {B = Unit {0}}
        (Program.wrap f [] (act (Prepare.init_command ctx))) Programs.create_key_and_start
        (Effects.wrap f [] (Prepare.init_command ctx)) Prepare.create_key_and_start
        (λ s. ground arith) create_key_and_start-Runs

  cleanup-Runs : (ctx : Context) → Runs {P = P} (Programs.cleanup ctx) (Cleanup.custom_execute ctx)
  unfolding Programs.cleanup Cleanup.custom_execute
  cleanup-Runs ctx =
      let f : String = "initializing CleanupCommand: %w" in
      >>=-Runs {A = CleanupCommand} {B = Unit {0}}
        (Program.wrap f [] (act (Cleanup.init_command ctx))) Programs.stop_and_clear
        (Effects.wrap f [] (Cleanup.init_command ctx)) Cleanup.stop_and_clear (λ s. ground arith)
        stop_and_clear-Runs

  run_args-Runs :
      (ctx : Context) (args : List Bytes)
      → Runs {P = P} (Programs.run_args ctx args) (Run.run_args ctx args)
  unfolding Programs.run_args Run.run_args Programs.execute_script_file Run.execute_script_file
  run_args-Runs ctx [] s = refl
  run_args-Runs ctx (path ∷ []) s = refl
  run_args-Runs ctx (path ∷ stage ∷ more) s = ground arith

  -- A stage's program, its steps taken one after the other with no other process between them, ends
  -- in the state and with the result that the stage's function computes: for prepare, run, cleanup
  -- and config, from every state, also where it fails or panics.
  pub program-run : (stage : Stage) (s : State P) → run (program stage) s ≡ stage_action stage s
  unfolding program Run.custom_execute
  program-run (prepares ctx) s = prepare-Runs ctx s
  program-run (runs ctx) s = run_args-Runs ctx ctx.args s
  program-run (cleans_up ctx) s = cleanup-Runs ctx s
  program-run (configures v ctx) s = refl
