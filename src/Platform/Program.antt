-- ===== src/Platform/Program.antt =====
-- A process that other processes may interrupt: a tree of actions. Each action is one step on the
-- shared state, and what it answers decides how the process goes on.
use gitlab_ci_fargate_arm_dr.Prelude.{◌≡◌, refl, ◌∙◌, inl, inr, arith, String, Bytes, List}
use gitlab_ci_fargate_arm_dr.Go.Errors.{Error, wrapped}
use gitlab_ci_fargate_arm_dr.Platform.{Platform, State, Result, ok, err, panic}
use gitlab_ci_fargate_arm_dr.Platform.Effects.{M, Result-cases}
use gitlab_ci_fargate_arm_dr.Platform.Effects

pub data Program (P : Platform) (A : Type 0) : Type 1 where
  ret : Result A → Program P A
  call : {B : Type 0} → M P B → (Result B → Program P A) → Program P A

abbrev pub wrapped_result : {A : Type 0} → String → List Bytes → Result A → Result A
wrapped_result format args (ok a) = ok a
wrapped_result format args (err e) = err (wrapped format args e)
wrapped_result format args (panic t) = panic t

module _ {P : Platform} where
  -- One action.
  abbrev pub act : {A : Type 0} → M P A → Program P A
  act m = call m ret

  -- The program with no other process between its steps.
  abbrev pub run : {A : Type 0} → Program P A → M P A
  run (ret r) s = (r, s)
  run (call m k) s = let (r, t) = m s in run (k r) t

  -- A program that goes on with the result of another, whatever it is.
  abbrev pub after : {A B : Type 0} → Program P A → (Result A → Program P B) → Program P B
  after (ret r) f = f r
  after (call m k) f = call m (λ r. after (k r) f)

  abbrev pub on_ok : {A B : Type 0} → (A → Program P B) → Result A → Program P B
  on_ok f (ok a) = f a
  on_ok f (err e) = ret (err e)
  on_ok f (panic t) = ret (panic t)

  -- The operations of `Effects`, on programs.
  infixl 5 ◌>>=◌ ◌>>◌
  abbrev pub ◌>>=◌ : {A B : Type 0} → Program P A → (A → Program P B) → Program P B
  p >>= f = after p (on_ok f)

  abbrev pub ◌>>◌ : {B : Type 0} → Program P (Unit {0}) → Program P B → Program P B
  p >> q = p >>= λ _. q

  abbrev pub wrap : {A : Type 0} → String → List Bytes → Program P A → Program P A
  wrap format args p = after p (λ r. ret (wrapped_result format args r))

  abbrev pub handled : {A : Type 0} → (Error → Program P (Unit {0})) → Result A → Program P A
  handled handler (ok a) = ret (ok a)
  handled handler (err e) = handler e >> ret (err e)
  handled handler (panic t) = ret (panic t)

  abbrev pub on_error : {A : Type 0} → Program P A → (Error → Program P (Unit {0})) → Program P A
  on_error p handler = after p (handled handler)

  pub run-after :
      {A B : Type 0} (p : Program P A) (f : Result A → Program P B) (s : State P)
      → run (after p f) s ≡ run (f (run p s).0) (run p s).1
  run-after (ret r) f s = refl
  run-after (call m k) f s = run-after (k (m s).0) f (m s).1

  -- The program, run alone, is the action.
  abbrev pub Runs : {A : Type 0} → Program P A → M P A → Type 0
  Runs p m = (s : State P) → run p s ≡ m s

  pub >>=-Runs :
      {A B : Type 0} (p : Program P A) (f : A → Program P B) (m : M P A) (g : A → M P B)
      → Runs p m
      → ((a : A) → Runs (f a) (g a))
      → Runs (p >>= f) (Effects.◌>>=◌ m g)
  >>=-Runs p f m g h k s = run-after p (on_ok f) s ∙ elim (Result-cases (m s).0) [
    | inl (a, e) ↦ ground (arith, h s, k a (m s).1)
    | inr (inl (failure, e)) ↦ ground (arith, h s)
    | inr (inr (text, e)) ↦ ground (arith, h s)
  ]
