-- ===== src/Commands/Overlap/Duty/Guards.antt =====
-- The steps of the prepare stage (cmd/fargate/commands/custom/prepare.go) that look after a task,
-- with their error handling: what they owe.
use mathlib.Core.Path.{subst}
use gitlab_ci_fargate_arm_dr.Prelude.{inl, String, ◌≡◌, ◌≢◌, refl, sym, Bytes, List, [], ◌∷◌}
use gitlab_ci_fargate_arm_dr.Go.Errors.{Error}
use gitlab_ci_fargate_arm_dr.Platform.{Platform, State, Result, ok, err, panic}
use gitlab_ci_fargate_arm_dr.Platform.Program.{
  Program, ret, act, on_ok, handled, wrapped_result, on_error, wrap,
}
use gitlab_ci_fargate_arm_dr.Aws.Tasks.{IsInitialized}
use gitlab_ci_fargate_arm_dr.Task.Metadata.{get_full_file_path}
use gitlab_ci_fargate_arm_dr.Task.Metadata.Store.{Known}
use gitlab_ci_fargate_arm_dr.Task.Metadata.Store.Refines.{IsSo, IsSo-Same}
use gitlab_ci_fargate_arm_dr.Commands.Frame.{stop_on_error-Spares}
use gitlab_ci_fargate_arm_dr.Commands.Prepare.{PrepareCommand, stop_fargate_task_on_error}
use gitlab_ci_fargate_arm_dr.Commands.Prepare.Steps.{stop_on_error-stopped}
use gitlab_ci_fargate_arm_dr.Commands.Overlap.Duty.{
  Settled, Post, Effect, Duty, after-Duty, stopped-Moves,
}

-- The metadata file that the command writes.
abbrev pub own : Platform → PrepareCommand → Bytes
own P c = get_full_file_path P.join c.metadata_manager

-- How a step that looks after the task `arn` ends: the task is still owed, and the file is known
-- as `k`, or the step failed and owes nothing.
abbrev pub Guards : {A : Type 0} → Bytes → Known → Post A
Guards arn k (ok _) o' k' = (k' ≡ k) × (o' ≡ arn ∷ [])
Guards arn k (err _) o' k' = o' ≡ []
Guards arn k (panic _) o' k' = Settled o' k'

-- The same without the handling of its error.
abbrev pub Tries : {A : Type 0} → Bytes → Known → Post A
Tries arn k (ok _) o' k' = (k' ≡ k) × (o' ≡ arn ∷ [])
Tries arn k (err _) o' k' = o' ≡ arn ∷ []
Tries arn k (panic _) o' k' = Settled o' k'

wrapped-Guards :
    {A : Type 0} (arn : Bytes) (format : String) (k k' : Known) (r : Result A) (o : List Bytes)
    → Guards arn k r o k'
    → Guards arn k (wrapped_result format [] r) o k'
wrapped-Guards arn format k k' (ok a) o h = h
wrapped-Guards arn format k k' (err e) o h = h
wrapped-Guards arn format k k' (panic t) o h = h

module _ (P : Platform) (c : PrepareCommand) (arn : Bytes) (ready : IsInitialized c.aws_fargate)
    (named : arn ≢ []) where
  stop_on_error-Effect :
      (e : Error) (s : State P) (k : Known)
      → IsSo (own P c) k s
      → Effect (own P c) s (stop_fargate_task_on_error c arn e s).1 (arn ∷ []) [] k
  stop_on_error-Effect e s k so =
      let t = (stop_fargate_task_on_error c arn e s).1 in
      record {
        so = IsSo-Same (own P c) k s t (stop_on_error-Spares (own P c) c arn e s) so;
        others = λ other apart. stop_on_error-Spares other c arn e s;
        moves = stopped-Moves s t arn [] (stop_on_error-stopped c arn ready named e s);
      }

  paid-Duty :
      (A : Type 0) (e : Error) (k k' : Known) (r : Result (Unit {0}))
      → Duty {P = P} (own P c) {A = A} (Guards arn k) (on_ok (λ _. ret (err e)) r) [] k'
  paid-Duty A e k k' (ok _) = refl
  paid-Duty A e k k' (err _) = refl
  paid-Duty A e k k' (panic _) = inl refl

  -- The handling of an error pays the debt.
  handled-Duty :
      {A : Type 0} (k k' : Known) (r : Result A) (o : List Bytes)
      → Tries arn k r o k'
      → Duty {P = P}
          (own P c)
          (Guards arn k)
          (handled (λ e. act (stop_fargate_task_on_error c arn e)) r)
          o
          k'
  handled-Duty k k' (ok a) o h = h
  handled-Duty {A = A} k k' (err e) o h =
      let stop : Error → Program P (Unit {0}) = λ e. act (stop_fargate_task_on_error c arn e) in
      subst (λ q. Duty (own P c) {A = A} (Guards arn k) (handled stop (err e)) q k') (sym h)
        λ s so. (
          [],
          k',
          stop_on_error-Effect e s k' so,
          paid-Duty A e k k' (stop_fargate_task_on_error c arn e s).0,
        )
  handled-Duty k k' (panic t) o h = h

  pub guarded-Duty :
      {A : Type 0} (format : String) (p : Program P A) (k k' : Known) (o : List Bytes)
      → Duty (own P c) (Tries arn k) p o k'
      → Duty
          (own P c)
          (Guards arn k)
          (wrap format [] (on_error p (λ e. act (stop_fargate_task_on_error c arn e))))
          o
          k'
  guarded-Duty {A = A} format p k k' o h =
      let stop : Error → Program P (Unit {0}) = λ e. act (stop_fargate_task_on_error c arn e) in
      after-Duty (own P c) {A = A} {B = A} (Guards arn k) (Guards arn k) (on_error p stop)
        (λ r. ret (wrapped_result format [] r)) o k'
        (after-Duty (own P c) {A = A} {B = A} (Tries arn k) (Guards arn k) p (handled stop) o k' h
          λ r o' k'' tried. handled-Duty k k'' r o' tried)
        λ r o' k'' guarded. wrapped-Guards arn format k k'' r o' guarded
