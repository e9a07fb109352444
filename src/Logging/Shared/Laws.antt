-- ===== src/Logging/Shared/Laws.antt =====
-- Loggers that share their settings.
use mathlib.Core.Path.{subst}
use gitlab_ci_fargate_arm_dr.Prelude.{
  ◌≡◌, refl, sym, ap, ◌∙◌, ℕ, ◌==◌, List, [], ◌∷◌, ◌++◌, true, false, if◌then◌else◌, All, arith,
}
use gitlab_ci_fargate_arm_dr.Logging.{Logger, new_logrus}
use gitlab_ci_fargate_arm_dr.Logging.Shared.{
  Logrus, KeepsLogger, Memory, through, LogrusLogger, new, with_field, with_fields, with_error,
  shared_set_level, shared_set_format, shared_set_output, settings_of, Derivation, field, fields,
  error, Setting, level, format, output, derive, change, change_settings,
}

-- The loggers of a program, and the memory.
pub record World (L : Logrus) : Type 0 where
  pub loggers : List (LogrusLogger L)
  pub memory : Memory

-- The first logger, in any memory.
abbrev pub start : {L : Logrus} → L.Value → Memory → World L
start pid m = let (l, m') = new pid m in record { loggers = l ∷ []; memory = m' }

module _ {L : Logrus} where
  -- A call on one of the loggers.
  pub data Step (s t : World L) : Type 0 where
    derives :
        (before : List (LogrusLogger L)) (l : LogrusLogger L) (rest : List (LogrusLogger L))
        (d : Derivation L)
        → s.loggers ≡ before ++ (l ∷ rest)
        → t ≡ record s { loggers = derive d l ∷ s.loggers }
        → Step s t
    changes :
        (before : List (LogrusLogger L)) (l : LogrusLogger L) (rest : List (LogrusLogger L))
        (c : Setting)
        → s.loggers ≡ before ++ (l ∷ rest)
        → t ≡ record s { memory = (change c l s.memory).1 }
        → Step s t

  -- The settings that a step makes of those before it.
  abbrev pub after_step : {s t : World L} → Step s t → Logger → Logger
  after_step (derives before l rest d at e) k = k
  after_step (changes before l rest c at e) k = (change_settings L c k).1

  pub data Reach (s : World L) : World L → Type 0 where
    here : Reach s s
    next : {t u : World L} → Reach s t → Step t u → Reach s u

  -- All changes in their order, made to one record of settings.
  abbrev pub settings : {s t : World L} → Reach s t → Logger
  settings here = new_logrus
  settings (next run st) = after_step st (settings run)

-- A logger that works on the settings at the address `p`.
pub record PointsTo (L : Logrus) (p : ℕ) (l : LogrusLogger L) : Type 0 where
  pub own : l.logger ≡ p
  pub entry : L.entry_logger l.entry ≡ p

-- All loggers work on the settings at `p`, which are `k`; `old` is the memory elsewhere.
pub record Inv (L : Logrus) (p : ℕ) (old : Memory) (k : Logger) (s : World L) : Type 0 where
  pub point : All (PointsTo L p) s.loggers
  pub current : s.memory.logger_at p ≡ k
  pub others : (q : ℕ) → (q == p) ≡ false → s.memory.logger_at q ≡ old.logger_at q

All-at :
    {A : Type 0} (Q : A → Type 0) (before : List A) (x : A) (rest : List A)
    → All Q (before ++ (x ∷ rest))
    → Q x
All-at Q [] x rest h = h.0
All-at Q (y ∷ before) x rest h = All-at Q before x rest h.1

module _ {L : Logrus} where
  module _ (keeps : KeepsLogger L) (p : ℕ) where
    derive-PointsTo :
        (d : Derivation L) (l : LogrusLogger L) → PointsTo L p l → PointsTo L p (derive d l)
    unfolding with_field with_fields with_error
    derive-PointsTo (field key value) l h = record {
      own = h.own;
      entry = keeps.logger-field l.entry key value ∙ h.entry;
    }
    derive-PointsTo (fields list) l h = record {
      own = h.own;
      entry = keeps.logger-fields l.entry list ∙ h.entry;
    }
    derive-PointsTo (error e) l h = record {
      own = h.own;
      entry = keeps.logger-error l.entry e ∙ h.entry;
    }

  -- A change through a logger of the address `p`.
  change-through :
      (c : Setting) (l : LogrusLogger L) (m : Memory)
      → change c l m ≡ through l.logger (change_settings L c) m
  unfolding shared_set_level shared_set_format shared_set_output
  change-through (level name) l m = refl
  change-through (format name) l m = refl
  change-through (output o) l m = refl

module _ (L : Logrus) where
  through-at :
      (p : ℕ) (c : Setting) (m : Memory) (k : Logger)
      → m.logger_at p ≡ k
      → ((through p (change_settings L c) m).0 ≡ (change_settings L c k).0)
        × ((through p (change_settings L c) m).1.logger_at p ≡ (change_settings L c k).1)
  through-at p c m k e =
      let at : (p == p) ≡ true = ground arith in
      (
        ap (λ v. (change_settings L c v).0) e,
        ap (λ b. if b then (change_settings L c (m.logger_at p)).1 else m.logger_at p) at
            ∙ ap (λ v. (change_settings L c v).1) e,
      )

  through-other :
      (p q : ℕ) (c : Setting) (m : Memory)
      → (q == p) ≡ false
      → (through p (change_settings L c) m).1.logger_at q ≡ m.logger_at q
  through-other p q c m e =
      ap (λ b. if b then (change_settings L c (m.logger_at p)).1 else m.logger_at q) e

  Step-Inv :
      KeepsLogger L
      → (p : ℕ) (old : Memory) (k : Logger) {s t : World L} (st : Step s t) → Inv L p old k s
      → Inv L p old (after_step st k) t
  Step-Inv keeps p old k {s} (derives before l rest d at e) i =
      subst (Inv L p old k) (sym e) (record {
        point = (
          derive-PointsTo keeps p d l
              (All-at (PointsTo L p) before l rest (subst (All (PointsTo L p)) at i.point)),
          i.point,
        );
        current = i.current;
        others = i.others;
      })
  Step-Inv keeps p old k {s} (changes before l rest c at e) i =
      let points = All-at (PointsTo L p) before l rest (subst (All (PointsTo L p)) at i.point) in
      let moved : change c l s.memory ≡ through p (change_settings L c) s.memory =
        change-through c l s.memory
        ∙ ap (λ q. through q (change_settings L c) s.memory) points.own in
      subst (Inv L p old (change_settings L c k).1) (sym e) (record {
        point = i.point;
        current = ap (λ r. r.1.logger_at p) moved ∙ (through-at p c s.memory k i.current).1;
        others = λ q apart.
            ap (λ r. r.1.logger_at q) moved ∙ through-other p q c s.memory apart ∙ i.others q apart;
      })

  start-Inv :
      KeepsLogger L
      → (pid : L.Value) (old : Memory) → Inv L old.next_address old new_logrus (start pid old)
  unfolding new
  start-Inv keeps pid old =
      let p = old.next_address in
      let at : (p == p) ≡ true = ground arith in
      record {
        point = (record { own = refl; entry = keeps.logger-new p _ pid }, tt);
        current = ap (λ b. if b then new_logrus else old.logger_at p) at;
        others = λ q apart. ap (λ b. if b then new_logrus else old.logger_at q) apart;
      }

  Reach-Inv :
      KeepsLogger L
      → (pid : L.Value) (old : Memory) {s : World L} (run : Reach (start pid old) s)
      → Inv L old.next_address old (settings run) s
  Reach-Inv keeps pid old here = start-Inv keeps pid old
  Reach-Inv keeps pid old (next run st) =
      Step-Inv keeps old.next_address old (settings run) st (Reach-Inv keeps pid old run)

  -- What one logger of a program shows of the settings.
  abbrev pub Shows : Memory → Logger → LogrusLogger L → Type 0
  Shows m k l =
      (settings_of l m ≡ k) × ((c : Setting) → (change c l m).0 ≡ (change_settings L c k).0)

  shown :
      (p : ℕ) (m : Memory) (k : Logger) (ls : List (LogrusLogger L))
      → m.logger_at p ≡ k
      → All (PointsTo L p) ls
      → All (Shows m k) ls
  shown p m k [] current points = tt
  shown p m k (l ∷ ls) current (points, more) = (
    (
      ap m.logger_at points.entry ∙ current,
      λ c.
          ap (λ r. r.0) (change-through c l m)
          ∙ ap (λ q. (through q (change_settings L c) m).0) points.own
          ∙ (through-at p c m k current).0,
    ),
    shown p m k ls current more,
  )

  -- The loggers of a program that began with `new` share one record of settings: however loggers were
  -- derived from each other with fields and errors, and through whichever of them the level, the format
  -- and the output were changed, every logger's lines are written by the settings that the same changes,
  -- in their order, make of one record, and a change through any of them answers as on that record; the
  -- settings of other logrus loggers in memory stay. Assumed is that an entry of logrus keeps its
  -- logger when it gets fields.
  pub Reach-shared :
      KeepsLogger L
      → (pid : L.Value) (old : Memory) {s : World L} (run : Reach (start pid old) s)
      → All (Shows s.memory (settings run)) s.loggers
        × ((q : ℕ) → (q == old.next_address) ≡ false → s.memory.logger_at q ≡ old.logger_at q)
  Reach-shared keeps pid old {s} run =
      let i = Reach-Inv keeps pid old run in
      (shown old.next_address s.memory (settings run) s.loggers i.current i.point, i.others)
