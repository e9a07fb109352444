-- ===== src/Main/Application/Exit.antt =====
-- How the program ends, for a library that runs the application as it documents.
use gitlab_ci_fargate_arm_dr.Prelude.{◌≡◌, refl, ap, ◌∙◌, inl, inr, String, none, some}
use gitlab_ci_fargate_arm_dr.Go.Int.{ℤ, pos}
use gitlab_ci_fargate_arm_dr.Go.Errors.{Error}
use gitlab_ci_fargate_arm_dr.Platform.{State, Result, ok, err, panic}
use gitlab_ci_fargate_arm_dr.Platform.Effects.{Result-cases}
use gitlab_ci_fargate_arm_dr.Runner.{Adapter, init_adapter, generate_exit_from_error}
use gitlab_ci_fargate_arm_dr.Runner.Global.{get_adapter}
use gitlab_ci_fargate_arm_dr.Context.{Context}
use gitlab_ci_fargate_arm_dr.Cli.{Hook, execute_hooks}
use gitlab_ci_fargate_arm_dr.Cli.App.{
  Library, Shared, ActionFunc, App, before, after, register_category,
}
use gitlab_ci_fargate_arm_dr.Commands.Custom.{exit_code}
use gitlab_ci_fargate_arm_dr.Main.{
  GlobalFlags, Process, nop, before_functions, after_functions, close_hook,
}
use gitlab_ci_fargate_arm_dr.Main.Application.{Stage, Outside, library, set_up_application, main}
use gitlab_ci_fargate_arm_dr.Main.Application.Stages.{
  application-before, execute_hooks-on_process, stage_result, entry_of, entry_of-ran,
}

-- `Run` with a command line that selects an action, as the library documents it: `Before` runs first,
-- an error of it is returned and no command runs, and `After` runs at the end. `c0` is the context of
-- the application, `c` the one of the command.
pub record Selects {L : Library} (a : App L) (a_run : Hook (Shared L)) (action : ActionFunc L)
    (c0 c : L.CliContext) : Type 0 where
  pub runs :
      (s t : Shared L)
      → before a c0 s ≡ (ok tt, t)
      → (after a c0 (action c t).1).0 ≡ ok tt
      → a_run s ≡ ((action c t).0, (after a c0 (action c t).1).1)
  pub stops :
      (s t : Shared L) (e : Error)
      → before a c0 s ≡ (err e, t)
      → (after a c0 t).0 ≡ ok tt
      → a_run s ≡ (err e, (after a c0 t).1)

-- How the program ends, from the result of the hooks before the command, the adapter that the
-- environment gives, and the result of the stage.
pub data Ends (hooks : Result (Unit {0})) (adapter : Adapter) (stage : Result (Unit {0}))
    (end : Result ℤ) : Type 0 where
  hook_failed :
      (e : Error)
      → hooks ≡ err e
      → end ≡ panic "Runner Adapter not initialized. Must call runner.InitAdapter() first!"
      → Ends hooks adapter stage end
  hook_panicked : (text : String) → hooks ≡ panic text → Ends hooks adapter stage end
  succeeded : hooks ≡ ok tt → stage ≡ ok tt → end ≡ ok (pos 0) → Ends hooks adapter stage end
  stage_failed :
      (e : Error)
      → hooks ≡ ok tt
      → stage ≡ err e
      → end ≡ ok (generate_exit_from_error adapter e)
      → Ends hooks adapter stage end
  stage_panicked :
      (text : String)
      → hooks ≡ ok tt
      → stage ≡ panic text
      → end ≡ panic text
      → Ends hooks adapter stage end

module _ (O : Outside) (global : GlobalFlags) (process : Process)
    (unopened : process.close_log_file ≡ nop) where
  -- The hook after a command is the one that does nothing.
  application-after :
      (c0 : O.CliContext) (s : Shared (library O))
      → after (set_up_application O global process) c0 s ≡ (ok tt, record s { cli = some c0 })
  unfolding set_up_application before_functions after_functions register_category execute_hooks
      close_hook
  application-after c0 s = rw unopened refl

  -- The hooks before a command leave the adapter alone.
  before-adapter :
      (c0 : O.CliContext) (s : Shared (library O))
      → (before (set_up_application O global process) c0 s).1.state.adapter ≡ s.state.adapter
  before-adapter c0 s =
      let s0 : Shared (library O) = record s { cli = some c0 } in
      ap (λ fs. (execute_hooks fs s0).1.state.adapter) (application-before O global process)
      ∙ ap (λ r. r.1.state.adapter) (execute_hooks-on_process O (before_functions O.host global) s0)

  module _ (stage : Stage) (c0 c : O.CliContext)
      (a_run : App (library O) → Hook (Shared (library O))) (machine : State O.platform) where
    abbrev pub first : Shared (library O)
    first = record {
      cli = none;
      state = record { process = process; machine = machine; adapter = none };
    }

    -- The shared state after the hooks, and the stage with what they left.
    abbrev pub hooked : Result (Unit {0}) × Shared (library O)
    hooked = before (set_up_application O global process) c0 first

    abbrev pub stage_ends : Result (Unit {0})
    stage_ends =
        let t = hooked.1 in
        let ctx : Context = record {
          config = t.state.process.config;
          args = O.args c;
          adapter = t.state.adapter;
        } in
        (stage_result O stage ctx t).0

    module _
        (S : Selects
          (set_up_application O global process)
          (a_run (set_up_application O global process))
          (entry_of O stage).1
          c0
          c) where
      after_failure :
          (e : Error)
          → hooked.0 ≡ err e
          → (main O a_run global process machine).0 ≡ exit_code none (err e)
      unfolding main
      after_failure e failed =
          let t = hooked.1 in
          let last = application-after c0 t in
          ap (λ r. exit_code r.1.state.adapter r.0)
            (S.stops first t e (ap (λ r. (r, t)) failed) (ap (λ r. r.0) last))
          ∙ ap (λ x. exit_code x (err e))
              (ap (λ r. r.1.state.adapter) last ∙ before-adapter c0 first)

      after_success :
          hooked.0 ≡ ok tt
          → (main O a_run global process machine).0
            ≡ exit_code (some (init_adapter O.environment).0) stage_ends
      unfolding main
      after_success done =
          let t = hooked.1 in
          let ended = (entry_of O stage).1 c t in
          let last = application-after c0 ended.1 in
          let ran = entry_of-ran O stage c t in
          ap (λ r. exit_code r.1.state.adapter r.0)
            (S.runs first t (ap (λ r. (r, t)) done) (ap (λ r. r.0) last))
          ∙ ap (λ x. exit_code x ended.0)
              (ap (λ r. r.1.state.adapter) last ∙ ap (λ r. r.1.state.adapter) ran)
          ∙ ap (λ r. exit_code (some (init_adapter O.environment).0) r.0) ran

      -- How the program ends when the command line selects a stage, and the library does what it
      -- documents. If a hook before the stage fails, as on a configuration file that cannot be read, the
      -- program panics, since the adapter was never made. If the hooks succeed, it exits with 0 after a
      -- success of the stage, and with the code of the stage's error after a failure; a panic of the
      -- stage is one of the program. Nothing is said where a hook panics. At the start, `closeLogFile`
      -- is the hook that does nothing.
      pub main-Ends :
          Ends hooked.0
            (init_adapter O.environment).0
            stage_ends
            (main O a_run global process machine).0
      unfolding exit_code get_adapter
      main-Ends = elim (Result-cases hooked.0) [
        | inl (u, e) ↦ elim (Result-cases stage_ends) [
          | inl (x, g) ↦
              succeeded e g
                (after_success e ∙ ap (exit_code (some (init_adapter O.environment).0)) g)
          | inr (inl (failure, g)) ↦
              stage_failed failure e g
                (after_success e ∙ ap (exit_code (some (init_adapter O.environment).0)) g)
          | inr (inr (text, g)) ↦
              stage_panicked text e g
                (after_success e ∙ ap (exit_code (some (init_adapter O.environment).0)) g)
        ]
        | inr (inl (failure, e)) ↦ hook_failed failure e (after_failure failure e)
        | inr (inr (text, e)) ↦ hook_panicked text e
      ]
