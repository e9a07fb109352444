-- ===== src/Main/Application/Stages.antt =====
-- The stages of the application: what the hooks leave for them.
use gitlab_ci_fargate_arm_dr.Prelude.{
  ◌≡◌, refl, sym, ap, ◌∙◌, inl, inr, Bytes, codes, some, List, [], ◌∷◌, map, arith,
}
use gitlab_ci_fargate_arm_dr.Platform.{State, Result, ok}
use gitlab_ci_fargate_arm_dr.Platform.Effects.{Result-cases}
use gitlab_ci_fargate_arm_dr.Config.{Global}
use gitlab_ci_fargate_arm_dr.Runner.{init_adapter}
use gitlab_ci_fargate_arm_dr.Context.{Context}
use gitlab_ci_fargate_arm_dr.Cli.{Hook, execute_hooks}
use gitlab_ci_fargate_arm_dr.Cli.App.{
  Shared, append, to_action_func, compose_command, compose_category, add_commands,
  register_category, before,
}
use gitlab_ci_fargate_arm_dr.Cli.App.Laws.{Entry, actions, all_actions}
use gitlab_ci_fargate_arm_dr.Commands.Custom.{execute_stage}
use gitlab_ci_fargate_arm_dr.Main.{
  GlobalFlags, Process, before_functions, after_functions, with_flags,
}
use gitlab_ci_fargate_arm_dr.Main.Settings.{before_functions_choices}
use gitlab_ci_fargate_arm_dr.Main.Application.{
  Stage, config, prepare, run, cleanup, command_name, Outside, library, custom_execute, on_process,
  new_command, set_up_application,
}

module _ (O : Outside) where
  -- Hooks on the process, run on the shared state.
  pub execute_hooks-on_process :
      (fs : List (Hook Process)) (s : Shared (library O))
      → execute_hooks (map (on_process O) fs) s ≡ on_process O (execute_hooks fs) s
  unfolding execute_hooks
  execute_hooks-on_process [] s = refl
  execute_hooks-on_process (f ∷ fs) s = elim (Result-cases (f s.state.process).0) [
    | inl (u, e) ↦
        let program = s.state in
        let process = (f s.state.process).1 in
        ground (
          arith,
          execute_hooks-on_process fs (record s { state = record program { process = process } }),
        )
    | inr (inl (u, e)) ↦ ground arith
    | inr (inr (u, e)) ↦ ground arith
  ]

  -- The action of a stage: the program's own, not the one that the library is handed.
  abbrev pub stage_result :
      Stage → Context → Shared (library O) → Result (Unit {0}) × State O.platform
  stage_result stage ctx s =
      execute_stage O.environment (custom_execute O stage) ctx s.state.machine

  abbrev pub entry_of : Stage → Entry (library O)
  entry_of stage = (codes "custom" ∷ command_name stage ∷ [], to_action_func (new_command O stage))

  -- What a stage gives with a configuration, in the shared state.
  abbrev ran :
      Stage → O.CliContext → Shared (library O) → Global → Result (Unit {0}) × Shared (library O)
  ran stage c t g =
      let ctx : Context = record { config = g; args = O.args c; adapter = t.state.adapter } in
      let (r, machine) = stage_result stage ctx t in
      (
        r,
        record {
          cli = some c;
          state = record {
            process = t.state.process;
            machine = machine;
            adapter = some (init_adapter O.environment).0;
          };
        },
      )

  pub entry_of-ran :
      (stage : Stage) (c : O.CliContext) (t : Shared (library O))
      → (entry_of stage).1 c t ≡ ran stage c t t.state.process.config
  entry_of-ran config c t = refl
  entry_of-ran prepare c t = refl
  entry_of-ran run c t = refl
  entry_of-ran cleanup c t = refl

  module _ (global : GlobalFlags) (process : Process) where
    application-actions :
        all_actions [] (set_up_application O global process).commands
        ≡ entry_of config ∷ entry_of prepare ∷ entry_of run ∷ entry_of cleanup ∷ []
    unfolding set_up_application before_functions after_functions register_category append
        compose_category add_commands compose_command actions
    application-actions = refl

    pub application-before :
        (set_up_application O global process).before_functions
        ≡ map (on_process O) (before_functions O.host global)
    unfolding set_up_application before_functions after_functions register_category
    application-before = refl

    -- The tree of the application holds the four stages under `custom`, and no other action. If the
    -- hooks before a command succeed, no service was called, the configuration file was read and parsed
    -- to some `cfg`, and each stage then runs with `cfg`, the two flags put in, and the arguments of its own
    -- command, and changes nothing but the services, the library's context and the adapter.
    pub set_up_application-stages :
        (c0 : O.CliContext) (s t : Shared (library O))
        → before (set_up_application O global process) c0 s ≡ (ok tt, t)
        → (all_actions [] (set_up_application O global process).commands
            ≡ entry_of config ∷ entry_of prepare ∷ entry_of run ∷ entry_of cleanup ∷ [])
          × (t.state.machine ≡ s.state.machine)
          × ((content : Bytes) × (cfg : Global) × (O.host.read_file global.config_file ≡ ok content)
              × (O.host.unmarshal content ≡ ok cfg)
              × ((stage : Stage) (c : O.CliContext)
                  → let ctx : Context = record {
                    config = with_flags O.host global cfg;
                    args = O.args c;
                    adapter = t.state.adapter;
                  } in
                    let (r, machine) = stage_result stage ctx t in
                    (entry_of stage).1 c t ≡ (
                      r,
                      record {
                        cli = some c;
                        state = record {
                          process = t.state.process;
                          machine = machine;
                          adapter = some (init_adapter O.environment).0;
                        };
                      },
                    )))
    set_up_application-stages c0 s t e =
        let s0 : Shared (library O) = record s { cli = some c0 } in
        let lifted : on_process O (execute_hooks (before_functions O.host global)) s0 ≡ (ok tt, t) =
          sym (execute_hooks-on_process (before_functions O.host global) s0)
          ∙ ap (λ fs. execute_hooks fs s0) (sym application-before)
          ∙ e in
        let hooks : execute_hooks (before_functions O.host global) s.state.process
            ≡ (ok tt, t.state.process) =
          ap (λ r. (r.0, r.1.state.process)) lifted in
        let (content, cfg, read, parsed, same, _, _) =
          before_functions_choices O.host global s.state.process t.state.process hooks in
        (
          application-actions,
          ap (λ r. r.1.state.machine) (sym lifted),
          (content, cfg, read, parsed, λ stage c. entry_of-ran stage c t ∙ ap (ran stage c t) same),
        )
