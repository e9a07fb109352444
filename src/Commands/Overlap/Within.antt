-- ===== src/Commands/Overlap/Within.antt =====
-- How many steps a program takes at most, whatever they answer.
pub mod Stages
use mathlib.Core.Path.{subst}
use gitlab_ci_fargate_arm_dr.Prelude.{
  ◌≡◌, refl, sym, ap, ◌∙◌, ℕ, zero, suc, ◌+◌, ◌≤◌, String, Bytes, Option, none, some, List, [], ◌∷◌,
  arith, inl, inr, Bool-cases,
}
use gitlab_ci_fargate_arm_dr.Go.Errors.{Error}
use gitlab_ci_fargate_arm_dr.Context.{Context}
use gitlab_ci_fargate_arm_dr.Platform.{Platform, State, Result, ok, err, panic, Data, KeyPair}
use gitlab_ci_fargate_arm_dr.Platform.Effects.{M}
use gitlab_ci_fargate_arm_dr.Platform.Program.{
  Program, ret, call, act, after, on_ok, handled, wrapped_result, on_error, wrap, ◌>>=◌,
}
use gitlab_ci_fargate_arm_dr.Commands.Prepare.{
  PrepareCommand, stop_fargate_task_on_error, persist_data_for_later_stages,
}
use gitlab_ci_fargate_arm_dr.Commands.Prepare.Stored.{task_data}
use gitlab_ci_fargate_arm_dr.Commands.Overlap.Programs.{
  Stage, prepares, runs, cleans_up, configures, program, prepare, cleanup, run_args,
  execute_script_file, stop_and_clear, wait_fargate_task_ready, started_or_stopped, persist_or_stop,
  wait_or_stop, complete_task, finish_task, start_and_finish, create_key_and_start,
}
use gitlab_ci_fargate_arm_dr.Commands.Overlap.System.{Process, System}
use gitlab_ci_fargate_arm_dr.Commands.Overlap.Schedule.{advance, turn, schedule}

-- Addition that computes at `suc`.
abbrev pub plus : ℕ → ℕ → ℕ
plus zero c = c
plus (suc b) c = suc (plus b c)

module _ {P : Platform} where
  -- The program ends after at most so many steps, whatever they answer.
  abbrev pub Within : {A : Type 0} → ℕ → Program P A → Type 0
  Within b (ret r) = Unit
  Within zero (call m f) = ⊥
  Within {A} (suc b) (call {B} m f) = (r : Result B) → Within b (f r)

  Within-suc : {A : Type 0} (b : ℕ) (p : Program P A) → Within b p → Within (suc b) p
  Within-suc b (ret r) h = tt
  Within-suc zero (call m f) h = absurd h
  Within-suc (suc b) (call m f) h = λ r. Within-suc b (f r) (h r)

  pub Within-more : {A : Type 0} (b c : ℕ) (p : Program P A) → Within c p → Within (plus b c) p
  Within-more zero c p h = h
  Within-more (suc b) c p h = Within-suc (plus b c) p (Within-more b c p h)

  after-Within :
      {A B : Type 0} (b c : ℕ) (p : Program P A) (f : Result A → Program P B)
      → Within b p
      → ((r : Result A) → Within c (f r))
      → Within (plus b c) (after p f)
  after-Within b c (ret r) f h g = Within-more b c (f r) (g r)
  after-Within zero c (call m k) f h g = absurd h
  after-Within (suc b) c (call m k) f h g = λ r. after-Within b c (k r) f (h r) g

  wrap-Within :
      {A : Type 0} (b : ℕ) (format : String) (args : List Bytes) (p : Program P A)
      → Within b p
      → Within (plus b 0) (wrap format args p)
  wrap-Within b format args p h =
      after-Within b 0 p (λ r. ret (wrapped_result format args r)) h λ r. tt

  pub >>=-Within :
      {A B : Type 0} (b c : ℕ) (p : Program P A) (f : A → Program P B)
      → Within b p
      → ((a : A) → Within c (f a))
      → Within (plus b c) (p >>= f)
  >>=-Within {A} b c p f h g = after-Within b c p (on_ok f) h cases
    where
      cases : (r : Result A) → Within c (on_ok f r)
      cases (ok a) = g a
      cases (err _) = tt
      cases (panic _) = tt

  -- A step with the stop of the task where it fails.
  pub guarded-Within :
      {A : Type 0} (b : ℕ) (c : PrepareCommand) (arn : Bytes) (format : String) (p : Program P A)
      → Within b p
      → Within
          (plus (plus b 1) 0)
          (wrap format [] (on_error p (λ e. act (stop_fargate_task_on_error c arn e))))
  guarded-Within {A} b c arn format p h =
      let stop : Error → Program P (Unit {0}) = λ e. act (stop_fargate_task_on_error c arn e) in
      wrap-Within (plus b 1) format [] (on_error p stop) (after-Within b 1 p (handled stop) h cases)
    where
      paid : (e : Error) (r : Result (Unit {0})) → Within {A = A} 0 (on_ok (λ _. ret (err e)) r)
      paid e (ok _) = tt
      paid e (err _) = tt
      paid e (panic _) = tt

      cases :
          (r : Result A)
          → Within 1 (handled {P = P} (λ e. act (stop_fargate_task_on_error c arn e)) r)
      cases (ok a) = tt
      cases (err e) = λ r. paid e r
      cases (panic _) = tt
