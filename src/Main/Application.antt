-- ===== src/Main/Application.antt =====
-- The application that `main` sets up (`setUpApplication` of cmd/fargate/main.go) with the category
-- of the four stages (`NewCustomCategory` of cmd/fargate/commands/custom/custom.go and the `New…`
-- functions beside it): what the library is given to call.
pub mod Stages
pub mod Exit
use gitlab_ci_fargate_arm_dr.Prelude.{Bytes, codes, Option, none, some, List, [], ◌∷◌}
use gitlab_ci_fargate_arm_dr.Platform.{Platform, State, Result}
use gitlab_ci_fargate_arm_dr.Platform.Effects.{M, Action, pure}
use gitlab_ci_fargate_arm_dr.Runner.{Environment, Adapter, init_adapter}
use gitlab_ci_fargate_arm_dr.Go.Int.{ℤ}
use gitlab_ci_fargate_arm_dr.Context.{Context}
use gitlab_ci_fargate_arm_dr.Config.{Global}
use gitlab_ci_fargate_arm_dr.Cli.{Hook}
use gitlab_ci_fargate_arm_dr.Cli.App.{
  Library, Shared, Handler, LibCommand, lib_command, LibCommands, nil, Command, Category, category,
  Categories, no_categories, App, new_app, add_before_func, add_after_func,
  add_global_flags_from_struct, register_category,
}
use gitlab_ci_fargate_arm_dr.Version.{VersionInfo}
use gitlab_ci_fargate_arm_dr.Commands.Custom.{execute_stage, exit_code}
use gitlab_ci_fargate_arm_dr.Commands.Config
use gitlab_ci_fargate_arm_dr.Commands.Prepare
use gitlab_ci_fargate_arm_dr.Commands.Run
use gitlab_ci_fargate_arm_dr.Commands.Cleanup
use gitlab_ci_fargate_arm_dr.Main.{GlobalFlags, Process, Host, before_functions, after_functions}

pub data Stage : Type 0 where
  config prepare run cleanup : Stage

-- The structs of which the flags are read.
pub data Struct : Type 0 where
  global_flags : Struct
  command_of : Stage → Struct

-- What the hooks and the stages share, apart from the library's context: the process, the services
-- and the disk, and the package variable `adapter` of internal/runner.
pub record Program (P : Platform) : Type 0 where
  pub process : Process
  pub machine : State P
  pub adapter : Option Adapter

abbrev pub command_name : Stage → Bytes
command_name config = codes "config"
command_name prepare = codes "prepare"
command_name run = codes "run"
command_name cleanup = codes "cleanup"

-- What stands outside of the program: the services, the start's host, the environment, the version
-- that was built in, and the library with its contexts, their arguments, and its flags.
pub record Outside : Type 1 where
  pub platform : Platform
  pub host : Host
  pub environment : Environment
  pub version : VersionInfo
  pub CliContext : Type 0
  pub args : CliContext → List Bytes
  pub Flag : Type 0
  pub get_flags_from_struct : Struct → List Flag

abbrev pub library : Outside → Library
library O = record {
  CliContext = O.CliContext;
  Flag = O.Flag;
  State = Program O.platform;
  Struct = Struct;
  get_flags_from_struct = O.get_flags_from_struct;
}

module _ (O : Outside) where
  abbrev pub custom_execute : Stage → Context → M O.platform (Unit {0})
  custom_execute config = Config.custom_execute O.version
  custom_execute prepare = Prepare.custom_execute
  custom_execute run = Run.custom_execute
  custom_execute cleanup = Cleanup.custom_execute

  -- A context that the library has not set has no arguments; each action sets it before.
  abbrev pub args_of : Option O.CliContext → List Bytes
  args_of none = []
  args_of (some c) = O.args c

  -- What a stage reads of the shared context.
  abbrev pub context : Shared (library O) → Context
  context s = record {
    config = s.state.process.config;
    args = args_of s.cli;
    adapter = s.state.adapter;
  }

  -- A stage; whether it fails or not, `InitAdapter` has set the package variable.
  abbrev pub run_stage : Stage → Hook (Shared (library O))
  run_stage stage s =
      let program = s.state in
      let (r, machine) =
        execute_stage O.environment (custom_execute stage) (context s) program.machine in
      (
        r,
        record s {
          state = record program {
            machine = machine;
            adapter = some (init_adapter O.environment).0;
          };
        },
      )

  abbrev pub on_process : Hook Process → Hook (Shared (library O))
  on_process f s =
      let program = s.state in
      let (r, process) = f program.process in
      (r, record s { state = record program { process = process } })

  -- The embedded `Execute` runs the stage of the struct.
  abbrev pub stage_command : Stage → Bytes → Bytes → Command (library O)
  stage_command stage name alias = record {
    config = lib_command name (alias ∷ []) none [] nil;
    handler = record { struct = command_of stage; execute = run_stage stage };
  }

  abbrev pub new_config_command : Command (library O)
  new_config_command = stage_command config (codes "config") (codes "co")

  abbrev pub new_prepare_command : Command (library O)
  new_prepare_command = stage_command prepare (codes "prepare") (codes "p")

  abbrev pub new_run_command : Command (library O)
  new_run_command = stage_command run (codes "run") (codes "r")

  abbrev pub new_cleanup_command : Command (library O)
  new_cleanup_command = stage_command cleanup (codes "cleanup") (codes "cl")

  abbrev pub new_custom_category : Category (library O)
  new_custom_category =
      category (lib_command (codes "custom") (codes "c" ∷ []) none [] nil) no_categories
        (new_config_command ∷ new_prepare_command ∷ new_run_command ∷ new_cleanup_command ∷ [])

  -- The command of a stage.
  abbrev pub new_command : Stage → Command (library O)
  new_command config = new_config_command
  new_command prepare = new_prepare_command
  new_command run = new_run_command
  new_command cleanup = new_cleanup_command

  abbrev pub add_before_funcs : List (Hook Process) → App (library O) → App (library O)
  add_before_funcs [] a = a
  add_before_funcs (f ∷ fs) a = add_before_funcs fs (add_before_func (on_process f) a)

  abbrev pub add_after_funcs : List (Hook Process) → App (library O) → App (library O)
  add_after_funcs [] a = a
  add_after_funcs (f ∷ fs) a = add_after_funcs fs (add_after_func (on_process f) a)

  -- The package variables have the values of `process` when it runs.
  unfoldable pub set_up_application : GlobalFlags → Process → App (library O)
  set_up_application global process =
      let a = add_before_funcs (before_functions O.host global) (new_app (library O)) in
      let b = add_after_funcs (after_functions O.host global process) a in
      register_category new_custom_category (add_global_flags_from_struct global_flags b)

  -- `main`, with the package variables at their first values; `a_run` is what `Run` of the library does
  -- with the application and the command line.
  unfoldable pub main :
      (App (library O) → Hook (Shared (library O)))
      → GlobalFlags
      → Process
      → State O.platform
      → Result ℤ × Shared (library O)
  main a_run global process machine =
      let a = set_up_application global process in
      let program : Program O.platform = record {
        process = process;
        machine = machine;
        adapter = none;
      } in
      let (r, t) = a_run a (record { cli = none; state = program }) in
      (exit_code t.state.adapter r, t)
