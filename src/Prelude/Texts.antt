-- ===== src/Prelude/Texts.antt =====
-- Go strings and byte slices: lists of bytes.
use Prim.Native.Nat.{ℕ}
use Prim.Native.Char.{code}
use Prim.Native.String.{String}
use mathlib.Core.Path.{◌≡◌, refl, subst}
use mathlib.Core.Logic.{◌≢◌, ◌↔◌}
use mathlib.Core.Bool.{Bool, true, false, ◌&&◌}
use mathlib.Core.List.{List, [], ◌∷◌, ◌++◌}
use native.Mathlib.Omega.{arith}
use gitlab_ci_fargate_arm_dr.Prelude.Tests.{◌==◌}

abbrev pub Bytes : Type 0
Bytes = List ℕ

-- The bytes of an ASCII literal.
abbrev pub codes : String → Bytes
codes String.[] = []
codes (String.◌∷◌ c s) = code c ∷ codes s

-- `a == b` on Go strings.
unfoldable pub text_eq : Bytes → Bytes → Bool
text_eq [] [] = true
text_eq [] (y ∷ ys) = false
text_eq (x ∷ xs) [] = false
text_eq (x ∷ xs) (y ∷ ys) = (x == y) && text_eq xs ys

pub text_eq_iff : (xs ys : Bytes) → (text_eq xs ys ≡ true) ↔ (xs ≡ ys)
unfolding text_eq
text_eq_iff [] [] = (λ _. refl, λ _. refl)
text_eq_iff [] (y ∷ ys) = ground arith
text_eq_iff (x ∷ xs) [] = ground arith
text_eq_iff (x ∷ xs) (y ∷ ys) = ground (arith, text_eq_iff xs ys)

-- `s == ""`
abbrev pub is_empty {ℓ} : {A : Type ℓ} → List A → Bool
is_empty [] = true
is_empty (_ ∷ _) = false

module _ {ℓ κ} {A : Type ℓ} (P : A → Type κ) where
  abbrev pub All : List A → Type κ
  All [] = Unit
  All (x ∷ xs) = P x × All xs

abbrev pub Lacks : ℕ → Bytes → Type 0
Lacks b = All (λ c. c ≢ b)

-- A text that lacks the separator is not one that holds it.
Lacks-split : (b : ℕ) (ys v : Bytes) → Lacks b (ys ++ (b ∷ v)) → ⊥
Lacks-split b [] v h = h.0 refl
Lacks-split b (y ∷ ys) v h = Lacks-split b ys v h.1

-- Two texts cut at their last separator: equal texts have equal parts.
pub split_last :
    (b : ℕ) (xs ys u v : Bytes)
    → Lacks b u
    → Lacks b v
    → xs ++ (b ∷ u) ≡ ys ++ (b ∷ v)
    → (xs ≡ ys) × (u ≡ v)
split_last b [] [] u v hu hv h = ground arith
split_last b [] (y ∷ ys) u v hu hv h =
    let e : u ≡ ys ++ (b ∷ v) = ground arith in absurd (Lacks-split b ys v (subst (Lacks b) e hu))
split_last b (x ∷ xs) [] u v hu hv h =
    let e : v ≡ xs ++ (b ∷ u) = ground arith in absurd (Lacks-split b xs u (subst (Lacks b) e hv))
split_last b (x ∷ xs) (y ∷ ys) u v hu hv h =
    let e : xs ++ (b ∷ u) ≡ ys ++ (b ∷ v) = ground arith in
    let (same, last) = split_last b xs ys u v hu hv e in (ground arith, last)

module _ (b : ℕ) where
  pub Lacks-append : (xs ys : Bytes) → Lacks b xs → Lacks b ys → Lacks b (xs ++ ys)
  Lacks-append [] ys hx hy = hy
  Lacks-append (x ∷ xs) ys hx hy = (hx.0, Lacks-append xs ys hx.1 hy)
