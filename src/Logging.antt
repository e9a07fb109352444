-- ===== src/Logging.antt =====
-- The logger's settings (internal/logging/logrus.go, logger.go). What is logged is left out; the
-- level, the formatter and the output are the state. Levels are logrus's numbers; the parser of
-- level names is a parameter.
pub mod File
pub mod Shared
use gitlab_ci_fargate_arm_dr.Prelude.{
  ℕ, Bytes, codes, text_eq, Bool, Option, none, some, [], ◌∷◌, if◌then◌else◌,
}
use gitlab_ci_fargate_arm_dr.Go.Errors.{formatted}
use gitlab_ci_fargate_arm_dr.Platform.{Result, ok, err}
use gitlab_ci_fargate_arm_dr.Platform.Effects.{Action, ◌>>=◌, wrap, lift, raise}

pub data Formatter : Type 0 where
  text text_simple json : Formatter

pub data Output : Type 0 where
  stdout stderr log_file : Output

pub record Logger : Type 0 where
  pub level : ℕ
  pub formatter : Formatter
  pub output : Output

-- logrus.InfoLevel
abbrev pub info_level : ℕ
info_level = 4

-- `newLogrus`
abbrev pub new_logrus : Logger
new_logrus = record { level = info_level; formatter = text; output = stderr }

-- The names of the formatters (internal/logging/logger.go).
abbrev pub format_text : Bytes
format_text = codes "text"

abbrev pub format_text_simple : Bytes
format_text_simple = codes "text-simple"

abbrev pub format_json : Bytes
format_json = codes "json"

-- The map `formatters`.
unfoldable pub formatters : Bytes → Option Formatter
formatters name =
    if text_eq name format_text
    then some text
    else if text_eq name format_text_simple
    then some text_simple
    else if text_eq name format_json
    then some json
    else none

unfoldable pub set_level : (Bytes → Result ℕ) → Bytes → Action Logger (Unit {0})
set_level parse_level name l =
    (do
      level ← wrap "couldn't parse log level: %w" [] (lift (parse_level name))
      (λ (k : Logger). (ok tt, record k { level = level })))
      l

unfoldable pub set_format : Bytes → Action Logger (Unit {0})
unfolding formatters
set_format name l = elim (formatters name) [
  | some f ↦ (ok tt, record l { formatter = f })
  | none ↦ (err (formatted "unsupported logging format %q" (name ∷ [])), l)
]

abbrev pub set_output : Output → Logger → Logger
set_output o l = record l { output = o }
