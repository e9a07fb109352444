-- ===== src/Commands/Overlap/Schedule/Ends.antt =====
-- The turns of one process in a schedule.
use gitlab_ci_fargate_arm_dr.Prelude.{
  ◌≡◌, ◌≢◌, refl, sym, ap, ◌∙◌, inl, inr, ℕ, zero, suc, ◌≤◌, ◌==◌, Bool-cases, Option, none, some,
  List, [], ◌∷◌, if◌then◌else◌, arith,
}
use mathlib.Core.Path.{subst}
use gitlab_ci_fargate_arm_dr.Platform.{Platform, State, Result}
use gitlab_ci_fargate_arm_dr.Platform.Program.{Program, ret, call}
use gitlab_ci_fargate_arm_dr.Commands.Overlap.Programs.{program}
use gitlab_ci_fargate_arm_dr.Commands.Overlap.System.{Process, System}
use gitlab_ci_fargate_arm_dr.Commands.Overlap.Within.{Within}
use gitlab_ci_fargate_arm_dr.Commands.Overlap.Within.Stages.{most_steps, program-Within}
use gitlab_ci_fargate_arm_dr.Commands.Overlap.Schedule.{step, advance, turn, schedule}

-- How many turns the process in the place `n` has.
abbrev pub turns_of : ℕ → List ℕ → ℕ
turns_of n [] = 0
turns_of n (m ∷ turns) = let more = turns_of n turns in if m == n then suc more else more

module _ {P : Platform} where
  -- The process in a place of the list.
  abbrev pub place : List (Process P) → ℕ → Option (Process P)
  place [] n = none
  place (q ∷ qs) zero = some q
  place (q ∷ qs) (suc n) = place qs n

  none-ne-some : {q : Process P} → none ≡ some q → ⊥
  none-ne-some {q} h = subst (λ o. elim o [ none ↦ Unit | some _ ↦ ⊥ ]) h tt

  some_inj : {p q : Process P} → some p ≡ some q → p ≡ q
  some_inj {p} h = ap (λ o. elim o [ none ↦ p | some x ↦ x ]) h

  advance-own :
      (s : State P) (qs : List (Process P)) (n : ℕ) (q : Process P)
      → place qs n ≡ some q
      → place (advance s qs n).1 n ≡ some (record q { rest = (step s q.rest).1 })
  advance-own s [] n q h = absurd (none-ne-some h)
  advance-own s (p ∷ qs) zero q h =
      ap {A = Process P} (λ x. some (record x { rest = (step s x.rest).1 })) (some_inj h)
  advance-own s (p ∷ qs) (suc n) q h = advance-own s qs n q h

  turn-own :
      (s : System P) (m n : ℕ) (q : Process P)
      → m ≡ n
      → place s.processes n ≡ some q
      → place (turn s m).processes n ≡ some (record q { rest = (step s.state q.rest).1 })
  turn-own s m n q e at =
      subst (λ i. place (turn s i).processes n ≡ some (record q { rest = (step s.state q.rest).1 }))
        (sym e) (advance-own s.state s.processes n q at)

  advance-other :
      (s : State P) (qs : List (Process P)) (m n : ℕ)
      → m ≢ n
      → place (advance s qs m).1 n ≡ place qs n
  advance-other s [] m n h = refl
  advance-other s (q ∷ qs) zero zero h = absurd (h refl)
  advance-other s (q ∷ qs) zero (suc n) h = refl
  advance-other s (q ∷ qs) (suc m) zero h = refl
  advance-other s (q ∷ qs) (suc m) (suc n) h = advance-other s qs m n λ e. h (ap suc e)

  Within-zero : (p : Program P (Unit {0})) → Within zero p → (r : Result (Unit {0})) × (p ≡ ret r)
  Within-zero (ret r) h = (r, refl)
  Within-zero (call m f) h = absurd h

  step-Within :
      (s : State P) (p : Program P (Unit {0})) (b : ℕ) → Within (suc b) p → Within b (step s p).1
  step-Within s (ret r) b h = tt
  step-Within s (call m f) b h = h (m s).0

  step-Within-zero :
      (s : State P) (p : Program P (Unit {0})) → Within zero p → Within zero (step s p).1
  step-Within-zero s (ret r) h = tt
  step-Within-zero s (call m f) h = absurd h

  -- The process of the place with the budget `b` for its steps.
  budget-ends :
      (turns : List ℕ) (s : System P) (n b : ℕ) (q : Process P)
      → place s.processes n ≡ some q
      → Within b q.rest
      → b ≤ turns_of n turns
      → (r : Result (Unit {0})) × (place (schedule turns s).processes n
          ≡ some (record q { rest = ret r }))
  budget-ends [] s n zero q at w h =
      let (r, e) = Within-zero q.rest w in (r, at ∙ ap (λ p. some (record q { rest = p })) e)
  budget-ends [] s n (suc b) q at w h = absurd (ground arith)
  budget-ends (m ∷ turns) s n zero q at w h = elim (Bool-cases (m == n)) [
    | inl same ↦
        budget-ends turns (turn s m) n zero (record q { rest = (step s.state q.rest).1 })
          (turn-own s m n q (ground arith) at) (step-Within-zero s.state q.rest w) (ground arith)
    | inr other ↦
        let apart : m ≢ n = λ e. ground arith in
        budget-ends turns (turn s m) n zero q (advance-other s.state s.processes m n apart ∙ at) w
          (ground arith)
  ]
  budget-ends (m ∷ turns) s n (suc b) q at w h = elim (Bool-cases (m == n)) [
    | inl same ↦
        budget-ends turns (turn s m) n b (record q { rest = (step s.state q.rest).1 })
          (turn-own s m n q (ground arith) at) (step-Within s.state q.rest b w) (ground arith)
    | inr other ↦
        let apart : m ≢ n = λ e. ground arith in
        budget-ends turns (turn s m) n (suc b) q (advance-other s.state s.processes m n apart ∙ at)
          w (ground arith)
  ]

  -- In any schedule of any processes, one that begins a stage has come to its end once it had 11
  -- turns, wherever these are among the turns of the others, and whatever the services, the file
  -- system and the other processes answer and do in between.
  pub schedule-ends :
      (turns : List ℕ) (s : System P) (n : ℕ) (q : Process P)
      → place s.processes n ≡ some q
      → q.rest ≡ program q.stage
      → most_steps ≤ turns_of n turns
      → (r : Result (Unit {0})) × (place (schedule turns s).processes n
          ≡ some (record q { rest = ret r }))
  schedule-ends turns s n q at begins enough =
      budget-ends turns s n most_steps q at
        (subst (Within most_steps) (sym begins) (program-Within P q.stage)) enough
