-- ===== src/Tests/Loggers.antt =====
-- Loggers on concrete entries: an address and the names of the fields.
use gitlab_ci_fargate_arm_dr.Prelude.{
  ◌≡◌, refl, ℕ, ◌==◌, false, Bytes, codes, List, [], ◌∷◌, ◌++◌, map, All,
}
use gitlab_ci_fargate_arm_dr.Platform.{ok}
use gitlab_ci_fargate_arm_dr.Logging.{new_logrus}
use gitlab_ci_fargate_arm_dr.Logging.Shared.{
  Logrus, KeepsLogger, Memory, LogrusLogger, new, with_field, shared_set_level, field, level,
}
use gitlab_ci_fargate_arm_dr.Logging.Shared.Laws.{
  World, start, derives, changes, Reach, here, next, settings, Shows, Reach-shared,
}

-- Every name of a level is read as 5.
abbrev logrus : Logrus
logrus = record {
  Value = ℕ;
  Entry = ℕ × List Bytes;
  entry_logger = λ e. e.0;
  new_entry = λ p key v. (p, key ∷ []);
  entry_with_field = λ e key v. (e.0, key ∷ e.1);
  entry_with_fields = λ e list. (e.0, map (λ f. f.0) list ++ e.1);
  entry_with_error = λ e failure. (e.0, codes "error" ∷ e.1);
  parse_level = λ name. ok 5;
}

logrus-KeepsLogger : KeepsLogger logrus
logrus-KeepsLogger = record {
  logger-new = λ p key v. refl;
  logger-field = λ e key v. refl;
  logger-fields = λ e list. refl;
  logger-error = λ e failure. refl;
}

abbrev empty_memory : Memory
empty_memory = record { next_address = 7; logger_at = λ q. new_logrus }

abbrev first : LogrusLogger logrus
first = record { entry = (7, codes "PID" ∷ []); logger = 7 }

abbrev second : LogrusLogger logrus
second = record { entry = (7, codes "command" ∷ codes "PID" ∷ []); logger = 7 }

abbrev with_two : World logrus
with_two = record {
  loggers = second ∷ first ∷ [];
  memory = (start {L = logrus} 1 empty_memory).memory;
}

-- A logger is derived, and the level is set through the one that it comes from.
to_two : Reach (start {L = logrus} 1 empty_memory) with_two
unfolding new with_field
to_two = next here (derives [] first [] (field (codes "command") 1) refl refl)

abbrev with_level : World logrus
with_level = record with_two { memory = (shared_set_level (codes "debug") first with_two.memory).1 }

abbrev to_level : Reach (start {L = logrus} 1 empty_memory) with_level
to_level = next to_two (changes (second ∷ []) first [] (level (codes "debug")) refl refl)

Reach-shared_example :
    All (Shows logrus with_level.memory (settings to_level)) with_level.loggers
    × ((q : ℕ) → (q == 7) ≡ false → with_level.memory.logger_at q ≡ new_logrus)
Reach-shared_example = Reach-shared logrus logrus-KeepsLogger 1 empty_memory to_level
