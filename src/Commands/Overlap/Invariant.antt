-- ===== src/Commands/Overlap/Invariant.antt =====
-- The tasks of overlapping processes, step by step.
use mathlib.Core.Path.{subst}
use gitlab_ci_fargate_arm_dr.Prelude.{◌≡◌, refl, sym, ◌+◌, ◌≤◌, Bytes, List, [], ◌∷◌, ◌++◌, arith}
use gitlab_ci_fargate_arm_dr.Platform.{
  Platform, State, Result, Data, IsFaithful, WritesReturn, RoundTrips,
}
use gitlab_ci_fargate_arm_dr.Platform.Program.{ret}
use gitlab_ci_fargate_arm_dr.Aws.Tasks.{started, stopped, NamesTasks}
use gitlab_ci_fargate_arm_dr.Task.Metadata.Store.{Known, unknown}
use gitlab_ci_fargate_arm_dr.Task.Metadata.Store.Refines.{IsSo}
use gitlab_ci_fargate_arm_dr.Commands.Jobs.{file, Serves, count}
use gitlab_ci_fargate_arm_dr.Commands.Jobs.Accounts.{Distinct}
use gitlab_ci_fargate_arm_dr.Commands.Jobs.Effects.{frame_of_Spares}
use gitlab_ci_fargate_arm_dr.Commands.Overlap.Programs.{Stage, prepares}
use gitlab_ci_fargate_arm_dr.Commands.Overlap.System.{
  context, Process, begin, System, boot, jobs, Follows, Step, arrives, acts, goes_on, departs,
  Reach, here, next,
}
use gitlab_ci_fargate_arm_dr.Commands.Overlap.Duty.{Ends, Duty, Effect, quiet-Moves}
use gitlab_ci_fargate_arm_dr.Commands.Overlap.Duty.Stages.{
  program-Duty, Done-nothing, Follows-Begins,
}
use gitlab_ci_fargate_arm_dr.Commands.Overlap.Debts.{
  Debt, owing, Keeps, AllKeep, AllKeep-split, AllKeep-insert, AllKeep-frame, jobs-replaced,
  Distinct-others,
}

-- Each task that was started is one that AWS was asked to stop, or one that a process owes.
pub record Inv {P : Platform} (s : System P) : Type 0 where
  pub debts : List Debt
  pub keep : AllKeep s.processes debts s.state
  pub distinct : Distinct P (jobs s.processes)
  pub accounted :
      (a : Bytes)
      → count a (started s.state.calls) ≤ count a (stopped s.state.calls) + owing a debts

count-nil : (a : Bytes) → count a [] ≡ 0
unfolding count
count-nil a = refl

module _ {P : Platform} where
  -- One process is replaced by another of the same job, after a step that changes its file only.
  replaced-Inv :
      (s : System P) (t : State P) (before : List (Process P)) (q : Process P)
      (rest : List (Process P)) (p : Process P) (i : Inv s)
      → s.processes ≡ before ++ (q ∷ rest)
      → p.job ≡ q.job
      → ((o : List Bytes) (k : Known)
          → Keeps q (o, k) s.state
          → (o' : List Bytes) × (k' : Known) × Effect (file P q.job) s.state t o o' k'
            × Keeps p (o', k') t)
      → Inv (record { state = t; processes = before ++ (p ∷ rest) })
  replaced-Inv s t before q rest p i at same move =
      let ((o, k), others, keeps, all, owes) =
        AllKeep-split before q rest i.debts s.state
          (subst (λ l. AllKeep l i.debts s.state) at i.keep) in
      let (o', k', effect, kept) = move o k keeps in
      let distinct = subst (λ l. Distinct P (jobs l)) at i.distinct in
      let (apart, _) = Distinct-others before q rest distinct in
      let frame = frame_of_Spares (jobs (before ++ rest)) q.job s.state t effect.others apart in
      let framed = AllKeep-frame (before ++ rest) others s.state t frame all in
      let (debts, together, sum) = AllKeep-insert before p rest (o', k') others t kept framed in
      record {
        debts = debts;
        keep = together;
        distinct = subst (Distinct P) (sym (jobs-replaced before p q rest same)) distinct;
        accounted = λ a. ground (arith, i.accounted a, owes a, sum a, effect.moves a);
      }

  removed-Inv :
      (s : System P) (before : List (Process P)) (q : Process P) (rest : List (Process P))
      (i : Inv s)
      → s.processes ≡ before ++ (q ∷ rest)
      → ((o : List Bytes) (k : Known) → Keeps q (o, k) s.state → o ≡ [])
      → Inv (record s { processes = before ++ rest })
  unfolding count
  removed-Inv s before q rest i at none =
      let ((o, k), others, keeps, all, owes) =
        AllKeep-split before q rest i.debts s.state
          (subst (λ l. AllKeep l i.debts s.state) at i.keep) in
      let (_, distinct) =
        Distinct-others before q rest (subst (λ l. Distinct P (jobs l)) at i.distinct) in
      let nothing = none o k keeps in
      record {
        debts = others;
        keep = all;
        distinct = distinct;
        accounted = λ a. ground (arith, i.accounted a, owes a);
      }

  module _ (F : IsFaithful P) (W : WritesReturn P) (N : NamesTasks P)
      (json : (x : Data) → RoundTrips P x) where
    -- A stage that begins with the debt of the one before it.
    begin-Keeps :
        (q : Process P) (stage : Stage) (r : Result (Unit {0})) (o : List Bytes) (k : Known)
        (s : State P)
        → q.rest ≡ ret r
        → Serves (context stage) q.job
        → Follows q.stage r stage
        → Keeps q (o, k) s
        → Keeps (begin q.job stage) (o, k) s
    begin-Keeps q stage r o k s ended serves follows (so, duty) =
        let ends : Ends q.stage r o k =
          subst (λ p. Duty (file P q.job) (Ends q.stage) p o k) ended duty in
        (
          so,
          program-Duty F W N json stage q.job o k serves
              (Follows-Begins q.stage r stage o k follows ends),
        )

    -- A process that stays where it is.
    unmoved-Effect :
        (path : Bytes) (s : State P) (o : List Bytes) (k : Known)
        → IsSo path k s
        → Effect path s s o o k
    unmoved-Effect path s o k so = record {
      so = so;
      others = λ other apart. (refl, refl);
      moves = quiet-Moves s s o refl;
    }

    Step-Inv : {s t : System P} → Step s t → Inv s → Inv t
    Step-Inv {s} (arrives ctx j serves fresh e) i = subst Inv (sym e) (record {
      debts = ([], unknown) ∷ i.debts;
      keep = ((tt, program-Duty F W N json (prepares ctx) j [] unknown serves refl), i.keep);
      distinct = (fresh, i.distinct);
      accounted = λ a. ground (arith, i.accounted a, count-nil a);
    })
    Step-Inv {s} (acts before q rest m f at at_call e) i = subst Inv (sym e) (
        replaced-Inv s (m s.state).1 before q rest (record q { rest = f (m s.state).0 }) i at refl
          λ o k keeps.
            let (o', k', effect, further) =
              subst (λ p. Duty (file P q.job) (Ends q.stage) p o k) at_call keeps.1 s.state
                keeps.0 in
            (o', k', effect, (effect.so, further)))
    Step-Inv {s} (goes_on before q rest r stage at ended serves follows e) i = subst Inv (sym e) (
        replaced-Inv s s.state before q rest (begin q.job stage) i at refl λ o k keeps. (
          o,
          k,
          unmoved-Effect (file P q.job) s.state o k keeps.0,
          begin-Keeps q stage r o k s.state ended serves follows keeps,
        ))
    Step-Inv {s} (departs before q rest r at ended done e) i = subst Inv (sym e) (
        removed-Inv s before q rest i at λ o k keeps.
          Done-nothing q.stage r o k done
            (subst (λ p. Duty (file P q.job) (Ends q.stage) p o k) ended keeps.1))

    Reach-keeps : {s t : System P} → Inv s → Reach s t → Inv t
    Reach-keeps i here = i
    Reach-keeps i (next run st) = Step-Inv st (Reach-keeps i run)

    pub Reach-Inv : (d : P.Disk) {s : System P} → Reach (boot P d) s → Inv s
    Reach-Inv d run =
        Reach-keeps
          (record {
            debts = [];
            keep = tt;
            distinct = tt;
            accounted = λ a. ground (arith, count-nil a);
          })
          run
