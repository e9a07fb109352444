-- ===== src/Go/Errors/Is.antt =====
-- `errors.Is` as the loop of the standard library over the `Is` and `Unwrap` methods of the driver's
-- error types (internal/runner/build_error.go, executors/ssh/executor.go,
-- internal/ssh/key_factory.go, cmd/fargate/commands/custom/config.go).
use gitlab_ci_fargate_arm_dr.Prelude.{
  ◌≡◌, refl, ℕ, zero, suc, ◌≤◌, Bool, true, false, Option, none, some, if◌then◌else◌, arith,
}
use gitlab_ci_fargate_arm_dr.Go.Errors.{
  Error, external, sentinel, num_error, wrapped, formatted, typed, Kind, same_kind, is_kind,
}

-- The `Unwrap` methods; those of the standard library are of `fmt.Errorf` with `%w`, and of
-- `strconv.NumError`, whose inner error is a plain one.
unfoldable pub unwrap : Error → Option Error
unwrap (external n) = none
unwrap (sentinel s) = none
unwrap (num_error f t r) = some (external 0)
unwrap (wrapped f args e) = some e
unwrap (formatted f args) = none
unwrap (typed j e) = some e

-- The `Is` methods, on a target that is a new pointer to a struct of the kind.
unfoldable pub is_method : Error → Kind → Bool
is_method (typed j e) k = same_kind j k
is_method _ k = false

-- The loop of `errors.Is`, with fuel: `none` is out of fuel. The target is a new pointer, so that no
-- error equals it, and not nil.
unfoldable pub is_loop : ℕ → Error → Kind → Option Bool
is_loop zero e k = none
is_loop (suc fuel) e k =
    let rest : Option Bool = elim (unwrap e) [
      | none ↦ some false
      | some inner ↦ is_loop fuel inner k
    ] in
    if is_method e k then some true else rest

-- The errors of a chain.
unfoldable pub chain_length : Error → ℕ
chain_length (external n) = 1
chain_length (sentinel s) = 1
chain_length (num_error f t r) = 2
chain_length (wrapped f args e) = suc (chain_length e)
chain_length (formatted f args) = 1
chain_length (typed j e) = suc (chain_length e)

-- With fuel for each error of the chain, the loop of `errors.Is` over the `Is` and `Unwrap` methods
-- ends, and it answers whether an error of the kind is anywhere in the chain.
pub is_loop-is_kind :
    (fuel : ℕ) (e : Error) (k : Kind)
    → chain_length e ≤ fuel
    → is_loop fuel e k ≡ some (is_kind k e)
unfolding is_loop unwrap is_method chain_length is_kind
is_loop-is_kind zero (external n) k h = absurd (ground arith)
is_loop-is_kind zero (sentinel n) k h = absurd (ground arith)
is_loop-is_kind zero (num_error f t r) k h = absurd (ground arith)
is_loop-is_kind zero (wrapped f args e) k h = absurd (ground arith)
is_loop-is_kind zero (formatted f args) k h = absurd (ground arith)
is_loop-is_kind zero (typed j e) k h = absurd (ground arith)
is_loop-is_kind (suc fuel) (external n) k h = refl
is_loop-is_kind (suc fuel) (sentinel s) k h = refl
is_loop-is_kind (suc zero) (num_error f t r) k h = absurd (ground arith)
is_loop-is_kind (suc (suc fuel)) (num_error f t r) k h = refl
is_loop-is_kind (suc fuel) (wrapped f args e) k h = is_loop-is_kind fuel e k (ground arith)
is_loop-is_kind (suc fuel) (formatted f args) k h = refl
is_loop-is_kind (suc fuel) (typed j e) k h =
    let rest = is_loop-is_kind fuel e k (ground arith) in ground (arith, rest)
