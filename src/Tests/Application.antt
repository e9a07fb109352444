-- ===== src/Tests/Application.antt =====
-- The application with its four stages, on the concrete machine.
use gitlab_ci_fargate_arm_dr.Prelude.{
  ap, ◌≡◌, refl, text_eq, Bytes, none, some, List, [], ◌∷◌, ◌++◌,
}
use gitlab_ci_fargate_arm_dr.Platform.{Result, ok, err, panic}
use gitlab_ci_fargate_arm_dr.Context.{Context}
use gitlab_ci_fargate_arm_dr.Config.{Global}
use gitlab_ci_fargate_arm_dr.Cli.{execute_hooks}
use gitlab_ci_fargate_arm_dr.Cli.App.{Shared, new_app, register_category, register_command}
use gitlab_ci_fargate_arm_dr.Cli.App as App
use gitlab_ci_fargate_arm_dr.Cli.App.Laws.{all_actions, listed, listed_command, register-actions}
use gitlab_ci_fargate_arm_dr.Logging.{formatters, set_level, set_format}
use gitlab_ci_fargate_arm_dr.Logging.File.{open_storage}
use gitlab_ci_fargate_arm_dr.Main.{
  with_flags, before_functions, after_functions, load_configuration_file, load_cli_args_env_vars,
  update_log_level, update_log_format, set_logging_to_file,
}
use gitlab_ci_fargate_arm_dr.Main.Application.{
  Stage, Outside, library, new_command, new_custom_category, set_up_application,
}
use gitlab_ci_fargate_arm_dr.Main.Application as Application
use gitlab_ci_fargate_arm_dr.Main.Application.Stages.{
  stage_result, entry_of, set_up_application-stages,
}
use gitlab_ci_fargate_arm_dr.Tests.Exit.{built}
use gitlab_ci_fargate_arm_dr.Main.Application.{main}
use gitlab_ci_fargate_arm_dr.Main.Application.Exit.{Selects, Ends, hooked, stage_ends, main-Ends}
use gitlab_ci_fargate_arm_dr.Runner.{init_adapter}
use gitlab_ci_fargate_arm_dr.Cli.{Hook}
use gitlab_ci_fargate_arm_dr.Tests.Machine.{machine, start}
use gitlab_ci_fargate_arm_dr.Tests.Start.{sevens, host, flags, before, after}

-- The library's context is the list of the arguments; no struct has flags.
abbrev outside : Outside
outside = record {
  platform = machine;
  host = host;
  environment = sevens;
  version = built;
  CliContext = List Bytes;
  args = λ c. c;
  Flag = Bytes;
  get_flags_from_struct = λ s. [];
}

abbrev fresh : Shared (library outside)
fresh = record { cli = none; state = record { process = before; machine = start; adapter = none } }

abbrev after_hooks : Shared (library outside)
after_hooks = record {
  cli = some [];
  state = record { process = after; machine = start; adapter = none };
}

hooks_succeed : App.before (set_up_application outside flags before) [] fresh ≡ (ok tt, after_hooks)
unfolding set_up_application register_category execute_hooks before_functions after_functions
    load_configuration_file load_cli_args_env_vars update_log_level update_log_format
    set_logging_to_file set_level set_format open_storage text_eq formatters
hooks_succeed = refl

set_up_application-stages_example :
    (all_actions [] (set_up_application outside flags before).commands
      ≡ entry_of outside Application.config
        ∷ entry_of outside Application.prepare
        ∷ entry_of outside Application.run
        ∷ entry_of outside Application.cleanup
        ∷ [])
    × (after_hooks.state.machine ≡ fresh.state.machine)
    × ((content : Bytes) × (cfg : Global) × (host.read_file flags.config_file ≡ ok content)
        × (host.unmarshal content ≡ ok cfg)
        × ((stage : Stage) (c : List Bytes)
            → let ctx : Context = record {
              config = with_flags host flags cfg;
              args = c;
              adapter = none;
            } in
              let (r, m) = stage_result outside stage ctx after_hooks in
              (entry_of outside stage).1 c after_hooks ≡ (
                r,
                record {
                  cli = some c;
                  state = record {
                    process = after_hooks.state.process;
                    machine = m;
                    adapter = some (init_adapter sevens).0;
                  };
                },
              )))
set_up_application-stages_example =
    set_up_application-stages outside flags before [] fresh after_hooks hooks_succeed

register-actions_example :
    (all_actions []
        (register_category (new_custom_category outside) (new_app (library outside))).commands
      ≡ all_actions [] (new_app (library outside)).commands
        ++ listed [] (new_custom_category outside))
    × (all_actions []
          (register_command
            (new_command outside Application.run)
            (new_app (library outside))).commands
        ≡ all_actions [] (new_app (library outside)).commands
          ++ listed_command [] (new_command outside Application.run))
register-actions_example =
    register-actions (new_app (library outside)) (new_custom_category outside)
      (new_command outside Application.run)

-- What a library does that is given a command line with the action of the stage.
abbrev end_run :
    App.App (library outside)
    → App.ActionFunc (library outside)
    → Result (Unit {0}) × Shared (library outside)
    → Result (Unit {0}) × Shared (library outside)
end_run a action (ok u, t) = let (q, v) = action [] t in (q, (App.after a [] v).1)
end_run a action (err e, t) = (err e, (App.after a [] t).1)
end_run a action (panic text, t) = (panic text, t)

abbrev a_run : App.App (library outside) → Hook (Shared (library outside))
a_run a s = end_run a (entry_of outside Application.cleanup).1 (App.before a [] s)

selects :
    (a : App.App (library outside))
    → Selects a (a_run a) (entry_of outside Application.cleanup).1 [] []
selects a = record {
  runs = λ s t e last. ap (end_run a (entry_of outside Application.cleanup).1) e;
  stops = λ s t failure e last. ap (end_run a (entry_of outside Application.cleanup).1) e;
}

main-Ends_example :
    Ends
      (hooked outside flags before refl Application.cleanup [] [] a_run start).0
      (init_adapter sevens).0
      (stage_ends outside flags before refl Application.cleanup [] [] a_run start)
      (main outside a_run flags before start).0
main-Ends_example =
    main-Ends outside flags before refl Application.cleanup [] [] a_run start
      (selects (set_up_application outside flags before))
