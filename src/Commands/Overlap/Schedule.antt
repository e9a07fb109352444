-- ===== src/Commands/Overlap/Schedule.antt =====
-- Schedules: which process takes the next step, by its place in the list. Between two stages and
-- past the end of the list a turn passes.
pub mod Ends
use mathlib.Core.Path.{subst}
use gitlab_ci_fargate_arm_dr.Prelude.{
  ◌≡◌, refl, sym, ap, ◌∙◌, ℕ, zero, suc, List, [], ◌∷◌, ◌++◌, append_assoc, arith,
}
use gitlab_ci_fargate_arm_dr.Platform.{Platform, State, Result}
use gitlab_ci_fargate_arm_dr.Platform.Program.{Program, ret, call}
use gitlab_ci_fargate_arm_dr.Commands.Overlap.System.{Process, System, Step, acts, Reach, next}

module _ {P : Platform} where
  -- One step of a process.
  abbrev pub step : State P → Program P (Unit {0}) → State P × Program P (Unit {0})
  step s (ret r) = (s, ret r)
  step s (call m f) = ((m s).1, f (m s).0)

  abbrev pub advance : State P → List (Process P) → ℕ → State P × List (Process P)
  advance s [] n = (s, [])
  advance s (q ∷ qs) zero = let (t, p) = step s q.rest in (t, record q { rest = p } ∷ qs)
  advance s (q ∷ qs) (suc n) = let (t, ps) = advance s qs n in (t, q ∷ ps)

  abbrev pub turn : System P → ℕ → System P
  turn s n = let (t, qs) = advance s.state s.processes n in record { state = t; processes = qs }

  abbrev pub schedule : List ℕ → System P → System P
  schedule [] s = s
  schedule (n ∷ turns) s = schedule turns (turn s n)

  step-Reach :
      (start : System P) (s : State P) (before : List (Process P)) (q : Process P)
      (qs : List (Process P)) (p : Program P (Unit {0}))
      → q.rest ≡ p
      → Reach start (record { state = s; processes = before ++ (q ∷ qs) })
      → Reach start (record {
        state = (step s p).0;
        processes = before ++ (record q { rest = (step s p).1 } ∷ qs);
      })
  step-Reach start s before q qs (ret r) e run =
      subst
        (λ v.
          Reach start (record { state = s; processes = before ++ (record q { rest = v } ∷ qs) }))
        e run
  step-Reach start s before q qs (call m f) e run = next run (acts before q qs m f refl e refl)

  advance-Reach :
      (start : System P) (s : State P) (before qs : List (Process P)) (n : ℕ)
      → Reach start (record { state = s; processes = before ++ qs })
      → Reach start
          (record { state = (advance s qs n).0; processes = before ++ (advance s qs n).1 })
  advance-Reach start s before [] n run = run
  advance-Reach start s before (q ∷ qs) zero run = step-Reach start s before q qs q.rest refl run
  advance-Reach start s before (q ∷ qs) (suc n) run =
      let next_one = advance s qs n in
      let moved = append_assoc before (q ∷ []) in
      subst (λ l. Reach start (record { state = next_one.0; processes = l })) (moved next_one.1)
        (advance-Reach start s (before ++ (q ∷ [])) qs n
          (subst (λ l. Reach start (record { state = s; processes = l })) (sym (moved qs)) run))

  -- Any schedule is a run of the system.
  pub schedule-Reach :
      {start : System P} (turns : List ℕ) (s : System P)
      → Reach start s
      → Reach start (schedule turns s)
  schedule-Reach [] s run = run
  schedule-Reach {start} (n ∷ turns) s run =
      schedule-Reach turns (turn s n) (advance-Reach start s.state [] s.processes n run)
