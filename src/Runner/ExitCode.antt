-- ===== src/Runner/ExitCode.antt =====
-- The exit code of a failed run.
use gitlab_ci_fargate_arm_dr.Prelude.{
  Bool, true, false, ◌≡◌, refl, arith, true, some, String, Bytes, List, [], ◌∷◌, codes, Bool-cases,
  inl, inr, ◌⊎◌, sym, ◌≢◌, ◌↔◌,
}
use mathlib.Core.Path.{subst}
use gitlab_ci_fargate_arm_dr.Go.Int.{ℤ, pos, bits}
use gitlab_ci_fargate_arm_dr.Go.Decimal.{parse_int, Parsed, bad_syntax, out_of_range, value}
use gitlab_ci_fargate_arm_dr.Go.Errors.{
  Error, external, sentinel, num_error, wrapped, formatted, typed, is_kind, Kind, same_kind,
}
use gitlab_ci_fargate_arm_dr.Runner.{
  Environment, Adapter, init_adapter, generate_exit_from_error, build_failure_exit_code_variable,
}

-- The chain of wrapped errors that starts at the second error holds one of the type.
pub data Holds (k : Kind) : Error → Type 0 where
  here : {e : Error} → Holds k (typed k e)
  under : {f : String} {args : List Bytes} {e : Error} → Holds k e → Holds k (wrapped f args e)
  inside : {j : Kind} {e : Error} → Holds k e → Holds k (typed j e)

same_kind_refl : (k : Kind) → same_kind k k ≡ true
same_kind_refl Kind.build_failure = refl
same_kind_refl _ = refl

same_kind-eq : (j k : Kind) → same_kind j k ≡ true → j ≡ k
same_kind-eq Kind.build_failure Kind.build_failure h = refl
same_kind-eq Kind.invalid_ssh_key Kind.invalid_ssh_key h = refl
same_kind-eq Kind.invalid_rsa_key Kind.invalid_rsa_key h = refl
same_kind-eq Kind.write_config Kind.write_config h = refl
same_kind-eq _ _ h = absurd (cc)

Holds-is_kind : (k : Kind) {e : Error} → Holds k e → is_kind k e ≡ true
unfolding is_kind
Holds-is_kind k here = rw same_kind_refl
Holds-is_kind k (under h) = Holds-is_kind k h
Holds-is_kind k (inside h) = ground (arith, Holds-is_kind k h)

is_kind-Holds : (k : Kind) (e : Error) → is_kind k e ≡ true → Holds k e
unfolding is_kind
is_kind-Holds k (external n) h = absurd (cc)
is_kind-Holds k (sentinel s) h = absurd (cc)
is_kind-Holds k (num_error f t r) h = absurd (cc)
is_kind-Holds k (wrapped f args e) h = under (is_kind-Holds k e h)
is_kind-Holds k (formatted f args) h = absurd (cc)
is_kind-Holds k (typed j e) h = elim (Bool-cases (same_kind j k)) [
  | inl same ↦ subst (λ i. Holds k (typed i e)) (sym (same_kind-eq j k same)) here
  | inr other ↦ inside (is_kind-Holds k e (ground arith))
]

-- `GenerateExitFromError` exits with the build failure code exactly when the chain of wrapped
-- errors holds a `BuildFailureError`, provided that the two codes differ.
pub generate_exit_from_error-iff-Holds :
    (a : Adapter) (e : Error)
    → a.build_failure_exit_code ≢ a.system_failure_exit_code
    → (generate_exit_from_error a e ≡ a.build_failure_exit_code) ↔ Holds Kind.build_failure e
unfolding generate_exit_from_error
generate_exit_from_error-iff-Holds a e h =
    (λ p. is_kind-Holds _ e (ground arith), λ p. rw (Holds-is_kind _ p))

not_value : (r : Parsed ℤ) → ((z : ℤ) → r ≢ value z) → (r ≡ bad_syntax) ⊎ (r ≡ out_of_range)
not_value (value z) h = absurd (h z refl)
not_value bad_syntax h = inl refl
not_value out_of_range h = inr refl

-- The error of a build failure code that `Atoi` refuses.
abbrev unreadable : Environment → Bool → Error
unreadable env range =
    wrapped "couldn't parse exit code %q from variable %q: %w"
      (env.get build_failure_exit_code_variable ∷ codes build_failure_exit_code_variable ∷ [])
      (num_error "Atoi" (env.get build_failure_exit_code_variable) range)

-- If the build failure code is not the text of an `int`, `InitAdapter` fails with the system
-- failure code still 0, so an error that wraps its error exits the process with code 0, as a
-- success does.
pub unreadable_build_code-exit_zero :
    (env : Environment)
    → ((z : ℤ) → parse_int (env.get build_failure_exit_code_variable) (bits env.int_size) ≢ value z)
    → (e : Error) × ((init_adapter env).1 ≡ some e)
      × ((format : String)
          → generate_exit_from_error (init_adapter env).0 (wrapped format [] e) ≡ pos 0)
unfolding init_adapter generate_exit_from_error is_kind
unreadable_build_code-exit_zero env h = elim (not_value _ h) [
  | inl e ↦ (unreadable env false, ground arith, λ format. ground arith)
  | inr e ↦ (unreadable env true, ground arith, λ format. ground arith)
]
