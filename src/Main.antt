-- ===== src/Main.antt =====
-- The program's start (cmd/fargate/main.go): the hooks that run before a command, and the ones
-- registered to run after it. `Process` is what the hooks share: the configuration and the logger
-- of `cli.Context`, the package variable `closeLogFile`, and the log file.
pub mod Settings
pub mod LogFile
pub mod Application
use gitlab_ci_fargate_arm_dr.Prelude.{ℕ, Bytes, codes, Bool, is_empty, List, [], ◌∷◌, if◌then◌else◌}
use gitlab_ci_fargate_arm_dr.Go.Errors.{Error, wrapped}
use gitlab_ci_fargate_arm_dr.Config.{Global}
use gitlab_ci_fargate_arm_dr.Platform.{Result, ok, err, panic}
use gitlab_ci_fargate_arm_dr.Platform.Effects.{Action, ◌>>=◌, ◌>>◌, pure, lift, wrap}
use gitlab_ci_fargate_arm_dr.Logging.{Logger, Output, set_level, set_format, set_output}
use gitlab_ci_fargate_arm_dr.Logging.File.{File, Storage, new_file, open_storage, close_storage}
use gitlab_ci_fargate_arm_dr.Cli.{Hook, execute_hooks, nop_hook}

pub record GlobalFlags : Type 0 where
  pub debug : Bool
  pub log_level : Bytes
  pub log_file : Bytes
  pub log_format : Bytes
  pub config_file : Bytes
  pub task_definition : Bytes
  pub platform_version : Bytes

-- The values that `closeLogFile` takes.
pub data CloseLogFile : Type 0 where
  nop close_storage_hook : CloseLogFile

pub record Process : Type 0 where
  pub config : Global
  pub logger : Logger
  pub close_log_file : CloseLogFile
  pub log_file : File

-- What the program asks of the operating system, the TOML parser and logrus.
pub record Host : Type 0 where
  pub read_file : Bytes → Result Bytes
  pub unmarshal : Bytes → Result Global
  pub parse_level : Bytes → Result ℕ
  pub open_file : Bytes → Result (Unit {0})
  pub close_file : Storage → Result (Unit {0})

-- A flag that is set replaces the value of the configuration.
abbrev pub or_flag : Bytes → Bytes → Bytes
or_flag value flag = if is_empty flag then value else flag

abbrev pub on_logger : Action Logger (Unit {0}) → Hook Process
on_logger m p = let (r, l) = m p.logger in (r, record p { logger = l })

abbrev pub on_file : Action File (Unit {0}) → Hook Process
on_file m p = let (r, f) = m p.log_file in (r, record p { log_file = f })

abbrev pub set_config : Global → Hook Process
set_config cfg p = (ok tt, record p { config = cfg })

module _ (h : Host) (global : GlobalFlags) where
  -- `config.LoadFromFile` (config/global.go).
  load_from_file : Bytes → Action Process Global
  load_from_file file = do
    content ← wrap "couldn't read configuration file %q: %w" (file ∷ []) (lift (h.read_file file))
    wrap "couldn't parse TOML content of the configuration file: %w" [] (lift (h.unmarshal content))

  unfoldable pub load_configuration_file : Hook Process
  unfolding load_from_file
  load_configuration_file = do cfg ← load_from_file global.config_file; set_config cfg

  -- The configuration with the two flags that replace parts of it.
  abbrev pub with_flags : Global → Global
  with_flags cfg =
      let fargate = cfg.fargate in
      record cfg {
        fargate = record fargate {
          task_definition = or_flag fargate.task_definition global.task_definition;
          platform_version = or_flag fargate.platform_version global.platform_version;
        };
      }

  unfoldable pub load_cli_args_env_vars : Hook Process
  load_cli_args_env_vars p = set_config (with_flags p.config) p

  abbrev pub effective_log_level : Global → Bytes
  effective_log_level cfg =
      if global.debug then codes "debug" else or_flag cfg.log_level global.log_level

  unfoldable pub update_log_level : Hook Process
  update_log_level p =
      let level = effective_log_level p.config in
      if is_empty level then (ok tt, p) else on_logger (set_level h.parse_level level) p

  unfoldable pub update_log_format : Hook Process
  update_log_format p =
      let format = or_flag p.config.log_format global.log_format in
      if is_empty format then (ok tt, p) else on_logger (set_format format) p

  -- `NewFile` and `Open`, then the close hook and the logger's output are set.
  open_log_file : Bytes → Hook Process
  open_log_file path = do
    (λ (p : Process). (ok tt, record p { log_file = new_file path }))
    on_file (open_storage h.open_file h.close_file)
    (λ (p : Process). (ok tt, record p { close_log_file = close_storage_hook }))
    on_logger (λ l. (ok tt, set_output Output.log_file l))

  unfoldable pub set_logging_to_file : Hook Process
  unfolding open_log_file
  set_logging_to_file p =
      let path = or_flag p.config.log_file global.log_file in
      if is_empty path then (ok tt, p) else open_log_file path p

  -- The hook that a value of `closeLogFile` stands for.
  unfoldable pub close_hook : CloseLogFile → Hook Process
  close_hook nop = nop_hook
  close_hook close_storage_hook = on_file (close_storage h.open_file h.close_file)

  -- The hooks of `setUpApplication` in order of registration; the first, which hands the logger
  -- to the context, and the last, which logs a line, change nothing of the state.
  unfoldable pub before_functions : List (Hook Process)
  before_functions =
      nop_hook ∷ load_configuration_file ∷ load_cli_args_env_vars ∷ update_log_level
      ∷ update_log_format ∷ set_logging_to_file ∷ nop_hook ∷ []

  -- `a.AddAfterFunc(closeLogFile)`: the variable is read when the application is set up.
  unfoldable pub after_functions : Process → List (Hook Process)
  after_functions p = close_hook p.close_log_file ∷ []
