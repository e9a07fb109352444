-- ===== src/Cli.antt =====
-- Hooks (internal/cli/hook.go): functions on a shared context that run in order until one fails.
pub mod App
use gitlab_ci_fargate_arm_dr.Prelude.{inl, inr, sym, ap, ◌∙◌, ◌≡◌, List, [], ◌∷◌, ◌++◌, arith}
use gitlab_ci_fargate_arm_dr.Go.Errors.{Error, wrapped}
use gitlab_ci_fargate_arm_dr.Platform.{ok, err}
use gitlab_ci_fargate_arm_dr.Platform.Effects.{Action, ◌>>◌, pure, wrap, Result-cases}

abbrev pub Hook : Type 0 → Type 0
Hook S = Action S (Unit {0})

module _ {S : Type 0} where
  -- `Hooks.Execute`
  unfoldable pub execute_hooks : List (Hook S) → Hook S
  execute_hooks [] = pure tt
  execute_hooks (f ∷ hooks) = wrap "hook failure: %w" [] f >> execute_hooks hooks

  -- `NewNopHook`
  abbrev pub nop_hook : Hook S
  nop_hook = pure tt

  -- The state after hooks that all succeed; each runs on what the one before it left.
  abbrev pub Succeed : List (Hook S) → S → S → Type 0
  Succeed [] s t = s ≡ t
  Succeed (f ∷ hooks) s t = ((f s).0 ≡ ok tt) × Succeed hooks (f s).1 t

  step :
      (d : Hook S) (hooks : List (Hook S)) (s : S)
      → (d s).0 ≡ ok tt
      → execute_hooks (d ∷ hooks) s ≡ execute_hooks hooks (d s).1
  unfolding execute_hooks
  step d hooks s h = ground arith

  -- A success of a list of hooks is a success of the first and of the rest.
  pub execute_hooks-cons_ok :
      (f : Hook S) (hooks : List (Hook S)) (s t : S)
      → execute_hooks (f ∷ hooks) s ≡ (ok tt, t)
      → ((f s).0 ≡ ok tt) × (execute_hooks hooks (f s).1 ≡ (ok tt, t))
  unfolding execute_hooks
  execute_hooks-cons_ok f hooks s t h = elim (Result-cases (f s).0) [
    | inl (u, e) ↦ (e, sym (step f hooks s e) ∙ h)
    | inr (inl (failure, e)) ↦ absurd (ground arith)
    | inr (inr (text, e)) ↦ absurd (ground arith)
  ]

  -- The hooks run in order. If all succeed, the result is a success. If the first ones succeed and
  -- the next one fails, its error is returned, with one wrapping, in the state that it left, and the
  -- hooks behind it do not run.
  pub execute_hooks-stops :
      (done : List (Hook S)) (f : Hook S) (rest : List (Hook S)) (s t : S) (e : Error)
      → Succeed done s t
      → (f t).0 ≡ err e
      → (execute_hooks done s ≡ (ok tt, t))
        × (execute_hooks (done ++ (f ∷ rest)) s ≡ (err (wrapped "hook failure: %w" [] e), (f t).1))
  unfolding execute_hooks
  execute_hooks-stops [] f rest s t e h g = (ap (λ u. (ok tt, u)) h, rw h (ground arith))
  execute_hooks-stops (d ∷ done) f rest s t e h g =
      let (whole, stopped) = execute_hooks-stops done f rest (d s).1 t e h.1 g in
      (step d done s h.0 ∙ whole, step d (done ++ (f ∷ rest)) s h.0 ∙ stopped)
