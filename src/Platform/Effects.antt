-- ===== src/Platform/Effects.antt =====
-- The monad of the driver's functions: a state is passed on, and an error or a panic stops.
use gitlab_ci_fargate_arm_dr.Prelude.{
  arith, ◌≡◌, refl, ◌⊎◌, inl, inr, String, Bytes, Option, none, some, List, ◌∷◌,
}
use gitlab_ci_fargate_arm_dr.Go.Errors.{Error, wrapped}
use gitlab_ci_fargate_arm_dr.Platform.{Platform, State, Result, ok, err, panic, Call, History}

abbrev pub Action : Type 0 → Type 0 → Type 0
Action S A = S → Result A × S

abbrev pub M : Platform → Type 0 → Type 0
M P A = Action (State P) A

module _ {S : Type 0} where
  infixl 5 ◌>>=◌ ◌>>◌
  abbrev pub ◌>>=◌ : {A B : Type 0} → Action S A → (A → Action S B) → Action S B
  ◌>>=◌ m f s =
      let (r, s') = m s in elim r [ ok a ↦ f a s' | err e ↦ (err e, s') | panic t ↦ (panic t, s') ]

  abbrev pub ◌>>◌ : {B : Type 0} → Action S (Unit {0}) → Action S B → Action S B
  m >> k = m >>= λ _. k

  abbrev pub pure : {A : Type 0} → A → Action S A
  pure a s = (ok a, s)

  abbrev pub raise : {A : Type 0} → Error → Action S A
  raise e s = (err e, s)

  -- A result that is at hand.
  abbrev pub lift : {A : Type 0} → Result A → Action S A
  lift r s = (r, s)

  -- `if err != nil { return fmt.Errorf(format, args, err) }`
  abbrev pub wrap : {A : Type 0} → String → List Bytes → Action S A → Action S A
  wrap format args m s =
      let (r, s') = m s in
      elim r [
        | ok a ↦ (ok a, s')
        | err e ↦ (err (wrapped format args e), s')
        | panic t ↦ (panic t, s')
      ]

  -- `if err != nil { handler; return err }`
  abbrev pub on_error : {A : Type 0} → Action S A → (Error → Action S (Unit {0})) → Action S A
  on_error m handler s =
      let (r, s') = m s in
      elim r [ ok a ↦ (ok a, s') | err e ↦ (handler e >> raise e) s' | panic t ↦ (panic t, s') ]

  -- A call whose error is dropped, as in `_ = f()`.
  abbrev pub ignore_error : {A : Type 0} → Action S A → Action S (Unit {0})
  ignore_error m s =
      let (r, s') = m s in
      elim r [ ok a ↦ (ok tt, s') | err e ↦ (ok tt, s') | panic t ↦ (panic t, s') ]

  -- Go's two results: the value with a nil error, or the zero value with the error.
  abbrev pub two_results : {A : Type 0} → A → Action S A → Action S (A × Option Error)
  two_results zero m s =
      let (r, s') = m s in
      elim r [
        | ok a ↦ (ok (a, none), s')
        | err e ↦ (ok (zero, some e), s')
        | panic t ↦ (panic t, s')
      ]

module _ {P : Platform} where
  -- A call of a service: its answer depends on the history, and the call is recorded.
  abbrev pub perform : {A : Type 0} → (History → Result A) → (Result A → Call) → M P A
  perform answer record_call s =
      let r = answer s.calls in (r, record s { calls = record_call r ∷ s.calls })

  -- A change of the disk, recorded.
  abbrev pub on_disk : {A : Type 0} → (P.Disk → Result A × P.Disk) → Call → M P A
  on_disk change call s =
      let (r, d) = change s.disk in (r, record s { calls = call ∷ s.calls; disk = d })

-- `defer f()` with the error of `f` dropped: `f` runs however the body ends.
abbrev pub defer_ignored : {S A B : Type 0} → Action S A → Action S B → Action S A
defer_ignored body deferred s =
    let (r, s1) = body s in
    let (d, s2) = deferred s1 in
    elim d [ ok _ ↦ (r, s2) | err _ ↦ (r, s2) | panic t ↦ (panic t, s2) ]

-- The answer of a deferred call in place of a success; an error or a panic of the body stays.
abbrev pub first_failure : {A B : Type 0} → Result A → Result B → Result A
first_failure (ok a) (ok _) = ok a
first_failure (ok a) (err e) = err e
first_failure (ok a) (panic t) = panic t
first_failure (err e) (ok _) = err e
first_failure (err e) (err _) = err e
first_failure (err e) (panic t) = panic t
first_failure (panic t) _ = panic t

-- `defer` that turns a success of the body into the deferred call's error.
abbrev pub defer_reported : {S A B : Type 0} → Action S A → Action S B → Action S A
defer_reported body deferred s =
    let (r, s1) = body s in let (d, s2) = deferred s1 in (first_failure r d, s2)

-- An index out of range, or a nil pointer, stops the program.
abbrev pub first {ℓ} : {A : Type ℓ} → List A → Result A
first List.[] = panic "index out of range"
first (a ∷ _) = ok a

abbrev pub deref {ℓ} : {A : Type ℓ} → Option A → Result A
deref none = panic "nil pointer dereference"
deref (some a) = ok a

-- To split on an answer and keep the equation.
pub Result-cases {ℓ} :
    {A : Type ℓ} (r : Result A)
    → ((a : A) × (r ≡ ok a)) ⊎ ((e : Error) × (r ≡ err e)) ⊎ ((t : String) × (r ≡ panic t))
Result-cases (ok a) = inl (a, refl)
Result-cases (err e) = inr (inl (e, refl))
Result-cases (panic t) = inr (inr (t, refl))

-- The step that a successful bind went through.
pub >>=-eq-ok :
    {S A B : Type 0} (m : Action S A) (f : A → Action S B) (s : S) {b : B}
    → ((m >>= f) s).0 ≡ ok b
    → (a : A) × ((m s).0 ≡ ok a) × ((m >>= f) s ≡ f a (m s).1) × ((f a (m s).1).0 ≡ ok b)
>>=-eq-ok m f s h = elim (Result-cases (m s).0) [
  | inl (a, e) ↦ (a, e, ground arith, ground arith)
  | inr (inl (failure, e)) ↦ absurd (ground arith)
  | inr (inr (text, e)) ↦ absurd (ground arith)
]
