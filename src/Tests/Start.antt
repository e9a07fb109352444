-- ===== src/Tests/Start.antt =====
-- The start of the process: the variables of the job, the hooks, the log file and the exit code.
use gitlab_ci_fargate_arm_dr.Prelude.{
  text_eq, ◌≡◌, ◌≢◌, ◌↔◌, refl, ℕ, suc, String, Bytes, codes, false, Option, none, some, [], ◌∷◌,
}
use gitlab_ci_fargate_arm_dr.Go.Errors.{Error, sentinel, Sentinel, wrapped, external, typed, Kind}
use gitlab_ci_fargate_arm_dr.Go.Int.{ℤ, pos, bits_32}
use gitlab_ci_fargate_arm_dr.Go.Decimal.{parse_int, parse_uint, parse_loop, with_sign, value}
use gitlab_ci_fargate_arm_dr.Config.{Global}
use gitlab_ci_fargate_arm_dr.Platform.{Result, ok, err}
use gitlab_ci_fargate_arm_dr.Runner.{Environment, Adapter, init_adapter, generate_exit_from_error}
use gitlab_ci_fargate_arm_dr.Runner.Init.{Reads, init_adapter-iff-Reads}
use gitlab_ci_fargate_arm_dr.Runner.ExitCode.{
  Holds, generate_exit_from_error-iff-Holds, unreadable_build_code-exit_zero,
}
use gitlab_ci_fargate_arm_dr.Logging.{formatters, new_logrus, set_level, set_format}
use gitlab_ci_fargate_arm_dr.Logging.File.{
  Storage, opened, new_file, open_storage, close_storage, write_storage, open_storage-failed,
}
use gitlab_ci_fargate_arm_dr.Cli.{Hook, execute_hooks}
use gitlab_ci_fargate_arm_dr.Main.{
  GlobalFlags, Process, Host, CloseLogFile, before_functions, after_functions,
  load_configuration_file, load_cli_args_env_vars, update_log_level, update_log_format,
  set_logging_to_file,
}
use gitlab_ci_fargate_arm_dr.Main.Settings.{
  Choice, Overrides, PicksLevel, before_functions_settings,
}
use gitlab_ci_fargate_arm_dr.Main.LogFile.{after_functions-opened}
use gitlab_ci_fargate_arm_dr.Tests.Stages.{config, adapter}

-- Every variable is `7`, or not a number, on a platform with 32-bit `int`.
abbrev pub sevens : Environment
sevens = record { get = λ name. codes "7"; int_size = bits_32 }

abbrev words : Environment
words = record { get = λ name. codes "x"; int_size = bits_32 }

abbrev pub seven : Adapter
seven = record {
  build_failure_exit_code = pos 7;
  system_failure_exit_code = pos 7;
  short_token = codes "7";
  project_url = codes "7";
  pipeline_id = pos 7;
  job_id = pos 7;
}

init_adapter-iff-Reads_example : (init_adapter sevens ≡ (seven, none)) ↔ Reads sevens seven
init_adapter-iff-Reads_example = init_adapter-iff-Reads sevens seven

codes_differ : adapter.build_failure_exit_code ≢ adapter.system_failure_exit_code
codes_differ h = absurd (cc)

generate_exit_from_error-iff-Holds_example :
    (generate_exit_from_error adapter (wrapped "%w" [] (typed Kind.build_failure (external 1)))
      ≡ pos 1)
    ↔ Holds Kind.build_failure (wrapped "%w" [] (typed Kind.build_failure (external 1)))
generate_exit_from_error-iff-Holds_example =
    generate_exit_from_error-iff-Holds adapter
      (wrapped "%w" [] (typed Kind.build_failure (external 1))) codes_differ

not_a_number : (z : ℤ) → parse_int (codes "x") 32 ≢ value z
unfolding parse_int parse_uint parse_loop with_sign
not_a_number z h = absurd (cc)

unreadable_build_code-exit_zero_example :
    (e : Error) × ((init_adapter words).1 ≡ some e)
    × ((format : String)
        → generate_exit_from_error (init_adapter words).0 (wrapped format [] e) ≡ pos 0)
unreadable_build_code-exit_zero_example = unreadable_build_code-exit_zero words not_a_number

abbrev counting : Hook ℕ
counting n = (ok tt, suc n)

abbrev refusing : Hook ℕ
refusing n = (err (external 8), n)

abbrev no_open : Bytes → Result (Unit {0})
no_open path = err (external 1)

abbrev no_close : Storage → Result (Unit {0})
no_close s = err (external 2)

abbrev no_write : Storage → Bytes → ℕ × Option Error
no_write s content = (0, some (external 3))

open_storage-failed_example :
    let new = new_file (codes "l") in
    let (opening, f) = open_storage no_open no_close new in
    let not_opened = sentinel Sentinel.log_file_not_opened in
    (write_storage no_open no_close no_write (codes "x") new
      ≡ ((0, some (wrapped "couldn't write to log file %q: %w" (codes "l" ∷ []) not_opened)), new))
    × ((close_storage no_open no_close new).0
        ≡ err (wrapped "couldn't close log file %q: %w" (codes "l" ∷ []) not_opened))
    × (opening
        ≡ err (wrapped "couldn't open log file %q for appending: %w" (codes "l" ∷ []) (external 1)))
    × (write_storage no_open no_close no_write (codes "x") f
        ≡ (no_write Storage.nil_file (codes "x"), f))
    × ((close_storage no_open no_close f).0
        ≡ err (wrapped "couldn't close log file %q: %w" (codes "l" ∷ []) (external 2)))
open_storage-failed_example =
    open_storage-failed no_open no_close no_write (codes "l") (codes "x") (external 1) (external 2)
      refl refl

-- A host whose configuration file holds `config`.
abbrev pub host : Host
host = record {
  read_file = λ path. ok [];
  unmarshal = λ content. ok config;
  parse_level = λ level. ok 5;
  open_file = λ path. ok tt;
  close_file = λ storage. ok tt;
}

abbrev pub flags : GlobalFlags
flags = record {
  debug = false;
  log_level = codes "debug";
  log_file = codes "l";
  log_format = codes "json";
  config_file = codes "c";
  task_definition = [];
  platform_version = [];
}

abbrev pub before : Process
before = record {
  config = config;
  logger = new_logrus;
  close_log_file = CloseLogFile.nop;
  log_file = new_file [];
}

-- The process when the command starts.
abbrev pub after : Process
after = (execute_hooks (before_functions host flags) before).1

started : execute_hooks (before_functions host flags) before ≡ (ok tt, after)
unfolding execute_hooks before_functions load_configuration_file load_cli_args_env_vars
    update_log_level update_log_format set_logging_to_file set_level set_format open_storage text_eq
    formatters
started = refl

before_functions_settings_example :
    (content level format : Bytes) × (cfg : Global) × (host.read_file (codes "c") ≡ ok content)
    × (host.unmarshal content ≡ ok cfg)
    × (after.config ≡ record cfg {
      fargate = record cfg.fargate {
        task_definition = after.config.fargate.task_definition;
        platform_version = after.config.fargate.platform_version;
      };
    })
    × Overrides [] cfg.fargate.task_definition after.config.fargate.task_definition
    × Overrides [] cfg.fargate.platform_version after.config.fargate.platform_version
    × PicksLevel flags cfg level
    × Choice (λ text n. host.parse_level text ≡ ok n) level 4 after.logger.level
    × Overrides (codes "json") cfg.log_format format
    × Choice (λ text f. formatters text ≡ some f) format new_logrus.formatter after.logger.formatter
before_functions_settings_example = before_functions_settings host flags before after started

flag_set : flags.log_file ≢ []
flag_set h = absurd (cc)

after_functions-opened_example :
    (after.close_log_file ≡ CloseLogFile.close_storage_hook)
    × ((execute_hooks (after_functions host flags before) after).1.log_file
        ≡ record { path = codes "l"; storage = opened })
after_functions-opened_example =
    after_functions-opened host flags before before after after refl flag_set started refl
