-- ===== src/Commands/Overlap/Debts.antt =====
-- The debts of the processes of a list, and what they know of their files.
use mathlib.Core.Path.{subst}
use gitlab_ci_fargate_arm_dr.Prelude.{
  ◌≡◌, ◌≢◌, refl, sym, ap, ℕ, ◌+◌, Bytes, List, [], ◌∷◌, ◌++◌, All, arith,
}
use gitlab_ci_fargate_arm_dr.Platform.{Platform, State}
use gitlab_ci_fargate_arm_dr.Task.Metadata.Store.{Known}
use gitlab_ci_fargate_arm_dr.Task.Metadata.Store.Refines.{IsSo, IsSo-Same}
use gitlab_ci_fargate_arm_dr.Commands.Frame.{SameFile}
use gitlab_ci_fargate_arm_dr.Commands.Jobs.{file, count}
use gitlab_ci_fargate_arm_dr.Commands.Jobs.Accounts.{Distinct, Distinct-split}
use gitlab_ci_fargate_arm_dr.Commands.Overlap.System.{Process, jobs}
use gitlab_ci_fargate_arm_dr.Commands.Overlap.Duty.{Ends, Duty}

-- What a process owes, and what it knows of its file.
abbrev pub Debt : Type 0
Debt = List Bytes × Known

abbrev pub owing : Bytes → List Debt → ℕ
owing a [] = 0
owing a ((o, k) ∷ debts) = count a o + owing a debts

module _ {P : Platform} where
  -- The process will pay its debt, and what it knows of its file is so.
  abbrev pub Keeps : Process P → Debt → State P → Type 0
  Keeps q (o, k) s = IsSo (file P q.job) k s × Duty {P = P} (file P q.job) (Ends q.stage) q.rest o k

  abbrev pub AllKeep : List (Process P) → List Debt → State P → Type 0
  AllKeep [] [] s = Unit
  AllKeep [] (_ ∷ _) s = ⊥
  AllKeep (_ ∷ _) [] s = ⊥
  AllKeep (q ∷ qs) (d ∷ debts) s = Keeps q d s × AllKeep qs debts s

  -- One process of a list, and the debts of the others.
  pub AllKeep-split :
      (before : List (Process P)) (q : Process P) (rest : List (Process P)) (debts : List Debt)
      (s : State P)
      → AllKeep (before ++ (q ∷ rest)) debts s
      → (d : Debt) × (others : List Debt) × Keeps q d s
        × AllKeep (before ++ rest) others s
        × ((a : Bytes) → owing a debts ≡ count a d.0 + owing a others)
  AllKeep-split [] q rest [] s h = absurd h
  AllKeep-split [] q rest (d ∷ debts) s h = (d, debts, h.0, h.1, λ a. refl)
  AllKeep-split (p ∷ before) q rest [] s h = absurd h
  AllKeep-split (p ∷ before) q rest (e ∷ debts) s h =
      let (d, others, keeps, all, owes) = AllKeep-split before q rest debts s h.1 in
      (d, e ∷ others, keeps, (h.0, all), λ a. ground (arith, owes a))

  pub AllKeep-insert :
      (before : List (Process P)) (q : Process P) (rest : List (Process P)) (d : Debt)
      (others : List Debt) (s : State P)
      → Keeps q d s
      → AllKeep (before ++ rest) others s
      → (debts : List Debt) × AllKeep (before ++ (q ∷ rest)) debts s
        × ((a : Bytes) → owing a debts ≡ count a d.0 + owing a others)
  AllKeep-insert [] q rest d others s keeps h = (d ∷ others, (keeps, h), λ a. refl)
  AllKeep-insert (p ∷ before) q rest d [] s keeps h = absurd h
  AllKeep-insert (p ∷ before) q rest d (e ∷ others) s keeps h =
      let (debts, all, owes) = AllKeep-insert before q rest d others s keeps h.1 in
      (e ∷ debts, (h.0, all), λ a. ground (arith, owes a))

  pub AllKeep-frame :
      (qs : List (Process P)) (debts : List Debt) (s t : State P)
      → All (λ j. SameFile (file P j) s t) (jobs qs)
      → AllKeep qs debts s
      → AllKeep qs debts t
  AllKeep-frame [] [] s t f h = tt
  AllKeep-frame [] (d ∷ debts) s t f h = h
  AllKeep-frame (q ∷ qs) [] s t f h = h
  AllKeep-frame (q ∷ qs) ((o, k) ∷ debts) s t f ((so, duty), h) =
      ((IsSo-Same (file P q.job) k s t f.0 so, duty), AllKeep-frame qs debts s t f.1 h)

  jobs-split :
      (before : List (Process P)) (rest : List (Process P))
      → jobs (before ++ rest) ≡ jobs before ++ jobs rest
  jobs-split [] rest = refl
  jobs-split (p ∷ before) rest = ap (λ js. p.job ∷ js) (jobs-split before rest)

  -- A process in place of one of the same job.
  pub jobs-replaced :
      (before : List (Process P)) (p q : Process P) (rest : List (Process P))
      → p.job ≡ q.job
      → jobs (before ++ (p ∷ rest)) ≡ jobs (before ++ (q ∷ rest))
  jobs-replaced [] p q rest e = ap (λ j. j ∷ jobs rest) e
  jobs-replaced (x ∷ before) p q rest e = ap (λ js. x.job ∷ js) (jobs-replaced before p q rest e)

  -- The file of one process is none of the others'.
  pub Distinct-others :
      (before : List (Process P)) (q : Process P) (rest : List (Process P))
      → Distinct P (jobs (before ++ (q ∷ rest)))
      → All (λ k. file P k ≢ file P q.job) (jobs (before ++ rest))
        × Distinct P (jobs (before ++ rest))
  Distinct-others before q rest d =
      let (apart, distinct) =
        Distinct-split P (jobs before) q.job (jobs rest)
          (subst (Distinct P) (jobs-split before (q ∷ rest)) d) in
      (
        subst (All (λ k. file P k ≢ file P q.job)) (sym (jobs-split before rest)) apart,
        subst (Distinct P) (sym (jobs-split before rest)) distinct,
      )
