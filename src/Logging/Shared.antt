-- ===== src/Logging/Shared.antt =====
-- The loggers as objects that share one logrus logger (internal/logging/logrus.go): a logger that is
-- derived with a field points to the settings of the one that it comes from. The entries of logrus,
-- which hold the fields, are a parameter.
pub mod Laws
use gitlab_ci_fargate_arm_dr.Prelude.{
  ◌≡◌, ℕ, suc, ◌==◌, Bytes, codes, List, [], ◌∷◌, ◌++◌, if◌then◌else◌,
}
use gitlab_ci_fargate_arm_dr.Go.Errors.{Error}
use gitlab_ci_fargate_arm_dr.Platform.{Result}
use gitlab_ci_fargate_arm_dr.Platform.Effects.{Action}
use gitlab_ci_fargate_arm_dr.Logging.{Logger, Output, new_logrus, set_level, set_format, set_output}

-- What the loggers call of logrus: its entries, which know the logger that they belong to, the
-- methods that add fields, and the parser of level names.
pub record Logrus : Type 1 where
  pub Value : Type 0
  pub Entry : Type 0
  pub entry_logger : Entry → ℕ
  pub new_entry : ℕ → Bytes → Value → Entry
  pub entry_with_field : Entry → Bytes → Value → Entry
  pub entry_with_fields : Entry → List (Bytes × Value) → Entry
  pub entry_with_error : Entry → Error → Entry
  pub parse_level : Bytes → Result ℕ

-- An entry keeps its logger when it gets fields.
pub record KeepsLogger (L : Logrus) : Type 0 where
  pub logger-new : (p : ℕ) (key : Bytes) (v : L.Value) → L.entry_logger (L.new_entry p key v) ≡ p
  pub logger-field :
      (e : L.Entry) (key : Bytes) (v : L.Value)
      → L.entry_logger (L.entry_with_field e key v) ≡ L.entry_logger e
  pub logger-fields :
      (e : L.Entry) (fields : List (Bytes × L.Value))
      → L.entry_logger (L.entry_with_fields e fields) ≡ L.entry_logger e
  pub logger-error :
      (e : L.Entry) (failure : Error)
      → L.entry_logger (L.entry_with_error e failure) ≡ L.entry_logger e

-- The logrus loggers in memory, by their addresses.
pub record Memory : Type 0 where
  pub next_address : ℕ
  pub logger_at : ℕ → Logger

abbrev pub store : ℕ → Logger → Memory → Memory
store p l m = record m { logger_at = λ q. if q == p then l else m.logger_at q }

-- A change of the logger at an address.
abbrev pub through : ℕ → Action Logger (Unit {0}) → Action Memory (Unit {0})
through p change m = let (r, l) = change (m.logger_at p) in (r, store p l m)

pub record LogrusLogger (L : Logrus) : Type 0 where
  pub entry : L.Entry
  pub logger : ℕ

module _ {L : Logrus} where
  abbrev pub logrus_with_logger_and_entry : ℕ → L.Entry → LogrusLogger L
  logrus_with_logger_and_entry logger entry = record { entry = entry; logger = logger }

  -- `newLogrus`; the number of the process is an argument.
  unfoldable pub new : L.Value → Memory → LogrusLogger L × Memory
  new pid m =
      let p = m.next_address in
      (
        logrus_with_logger_and_entry p (L.new_entry p (codes "PID") pid),
        store p new_logrus (record m { next_address = suc p }),
      )

  unfoldable pub with_field : Bytes → L.Value → LogrusLogger L → LogrusLogger L
  with_field key value l =
      logrus_with_logger_and_entry l.logger (L.entry_with_field l.entry key value)

  unfoldable pub with_fields : List (Bytes × L.Value) → LogrusLogger L → LogrusLogger L
  with_fields fields l = logrus_with_logger_and_entry l.logger (L.entry_with_fields l.entry fields)

  unfoldable pub with_error : Error → LogrusLogger L → LogrusLogger L
  with_error e l = logrus_with_logger_and_entry l.logger (L.entry_with_error l.entry e)

  -- The methods that change the settings.
  unfoldable pub shared_set_level : Bytes → LogrusLogger L → Action Memory (Unit {0})
  shared_set_level name l = through l.logger (set_level L.parse_level name)

  unfoldable pub shared_set_format : Bytes → LogrusLogger L → Action Memory (Unit {0})
  shared_set_format name l = through l.logger (set_format name)

  unfoldable pub shared_set_output : Output → LogrusLogger L → Action Memory (Unit {0})
  shared_set_output o l = through l.logger (λ k. (Result.ok tt, set_output o k))

  -- The settings by which a line of the logger is written: those of the entry's logger.
  abbrev pub settings_of : LogrusLogger L → Memory → Logger
  settings_of l m = m.logger_at (L.entry_logger l.entry)

-- The calls on a logger: one that derives a new logger, or one that changes the settings.
pub data Derivation (L : Logrus) : Type 0 where
  field : Bytes → L.Value → Derivation L
  fields : List (Bytes × L.Value) → Derivation L
  error : Error → Derivation L

pub data Setting : Type 0 where
  level format : Bytes → Setting
  output : Output → Setting

module _ {L : Logrus} where
  abbrev pub derive : Derivation L → LogrusLogger L → LogrusLogger L
  derive (field key value) = with_field key value
  derive (fields list) = with_fields list
  derive (error e) = with_error e

  abbrev pub change : Setting → LogrusLogger L → Action Memory (Unit {0})
  change (level name) = shared_set_level name
  change (format name) = shared_set_format name
  change (output o) = shared_set_output o

-- The same change on a record of settings.
abbrev pub change_settings : Logrus → Setting → Action Logger (Unit {0})
change_settings L (level name) k = set_level L.parse_level name k
change_settings L (format name) k = set_format name k
change_settings L (output o) k = (Result.ok tt, set_output o k)
