-- ===== src/Go/Decimal/Numeral.antt =====
-- The texts that `strconv.ParseInt` accepts in base ten, and the numbers that they stand for.
use native.Mathlib.Decide.{ℕ_discrete}
use gitlab_ci_fargate_arm_dr.Prelude.{
  ℕ, zero, suc, ◌+◌, ◌-◌, ◌*◌, ◌^◌, ◌≤◌, ◌<◌, ◌≡◌, ◌≢◌, ◌↔◌, refl, sym, ap, ◌∙◌, Bytes, [], ◌∷◌,
  arith, true, false,
}
use gitlab_ci_fargate_arm_dr.Go.Int.{ℤ, pos, negsuc, negate, IntSize, bits_32, bits_64, bits}
use gitlab_ci_fargate_arm_dr.Go.Decimal.{
  Parsed, value, bad_syntax, out_of_range, parse_loop, parse_uint, with_sign, parse_int,
}

abbrev pub AllDigits : Bytes → Type 0
AllDigits [] = Unit
AllDigits (c ∷ s) = (b'0' ≤ c) × (c ≤ b'9') × AllDigits s

-- The number that the digits stand for behind those of `n`.
unfoldable pub digits_value : ℕ → Bytes → ℕ
digits_value n [] = n
digits_value n (c ∷ s) = digits_value (n * 10 + (c - b'0')) s

-- One digit or more, which stand for `m`.
abbrev pub Magnitude : Bytes → ℕ → Type 0
Magnitude s m = (s ≢ []) × AllDigits s × (m ≡ digits_value 0 s)

-- Digits with a sign or without one, which stand for `z`.
pub data Numeral (s : Bytes) (z : ℤ) : Type 0 where
  plain : (m : ℕ) → Magnitude s m → z ≡ pos m → Numeral s z
  plus : (t : Bytes) (m : ℕ) → s ≡ b'+' ∷ t → Magnitude t m → z ≡ pos m → Numeral s z
  minus : (t : Bytes) (m : ℕ) → s ≡ b'-' ∷ t → Magnitude t m → z ≡ negate m → Numeral s z

-- The values of a signed integer of `w` bits.
abbrev pub Fits : ℕ → ℤ → Type 0
Fits w (pos n) = n < 2 ^ (w - 1)
Fits w (negsuc n) = n < 2 ^ (w - 1)

digits_value-le : (n : ℕ) (s : Bytes) → n ≤ digits_value n s
unfolding digits_value
digits_value-le n [] = omega arith
digits_value-le n (c ∷ s) = omega (arith, digits_value-le (n * 10 + (c - b'0')) s)

parse_loop-digits :
    (w : ℕ) (s : Bytes) (n m : ℕ)
    → parse_loop w s n ≡ value m
    → AllDigits s × (m ≡ digits_value n s)
unfolding parse_loop digits_value
parse_loop-digits w [] n m h = (tt, ground arith)
parse_loop-digits w (c ∷ s) n m h = ground (arith, parse_loop-digits w s (n * 10 + (c - b'0')) m)

digits-parse_loop :
    (w : ℕ) (s : Bytes) (n : ℕ)
    → 2 ^ w ≤ 2 ^ 64
    → AllDigits s
    → digits_value n s < 2 ^ w
    → parse_loop w s n ≡ value (digits_value n s)
unfolding parse_loop digits_value
digits-parse_loop w [] n fits digits h = refl
digits-parse_loop w (c ∷ s) n fits digits h =
    let more = digits-parse_loop w s (n * 10 + (c - b'0')) fits digits.2 h in
    ground (arith, more, digits_value-le (n * 10 + (c - b'0')) s)

-- A width of 1 to 64 bits, by its powers of two.
pub record IsWidth (w : ℕ) : Type 0 where
  pub doubles : 2 ^ w ≡ 2 * 2 ^ (w - 1)
  pub positive : 0 < 2 ^ (w - 1)
  pub bounded : 2 ^ w ≤ 2 ^ 64

pub bits-IsWidth : (size : IntSize) → IsWidth (bits size)
bits-IsWidth bits_32 = record { doubles = refl; positive = omega arith; bounded = omega arith }
bits-IsWidth bits_64 = record { doubles = refl; positive = omega arith; bounded = omega arith }

parse_uint-Magnitude : (w : ℕ) (s : Bytes) (m : ℕ) → parse_uint s w ≡ value m → Magnitude s m
unfolding parse_uint
parse_uint-Magnitude w [] m h = absurd (ground arith)
parse_uint-Magnitude w (c ∷ s) m h =
    let (digits, e) = parse_loop-digits w (c ∷ s) 0 m h in (λ blank. ground arith, digits, e)

Magnitude-parse_uint :
    (w : ℕ) (s : Bytes) (m : ℕ) → IsWidth w → m < 2 ^ w → Magnitude s m → parse_uint s w ≡ value m
unfolding parse_uint
Magnitude-parse_uint w [] m width h (full, digits, e) = absurd (full refl)
Magnitude-parse_uint w (c ∷ s) m width h (full, digits, e) =
    ground (arith, digits-parse_loop w (c ∷ s) 0 width.bounded digits)

with_sign-false :
    (w : ℕ) (r : Parsed ℕ) (z : ℤ)
    → with_sign w false r ≡ value z
    → (m : ℕ) × (r ≡ value m) × (z ≡ pos m) × Fits w z
unfolding with_sign
with_sign-false w (value m) (pos n) h = (m, refl, ground arith, ground arith)
with_sign-false w (value m) (negsuc n) h = absurd (ground arith)
with_sign-false w bad_syntax z h = absurd (ground arith)
with_sign-false w out_of_range z h = absurd (ground arith)

with_sign-true :
    (w : ℕ) (r : Parsed ℕ) (z : ℤ)
    → IsWidth w
    → with_sign w true r ≡ value z
    → (m : ℕ) × (r ≡ value m) × (z ≡ negate m) × Fits w z
unfolding with_sign
with_sign-true w (value zero) (pos n) width h =
    let p = width.positive in (zero, refl, ground arith, ground arith)
with_sign-true w (value zero) (negsuc n) width h = absurd (ground arith)
with_sign-true w (value (suc m)) (pos n) width h = absurd (ground arith)
with_sign-true w (value (suc m)) (negsuc n) width h = (suc m, refl, ground arith, ground arith)
with_sign-true w bad_syntax z width h = absurd (ground arith)
with_sign-true w out_of_range z width h = absurd (ground arith)

parse_int_plus :
    (c w : ℕ) (s : Bytes) → c ≡ b'+' → parse_int (c ∷ s) w ≡ with_sign w false (parse_uint s w)
unfolding parse_int
parse_int_plus c w s e = ground arith

parse_int_minus :
    (c w : ℕ) (s : Bytes) → c ≡ b'-' → parse_int (c ∷ s) w ≡ with_sign w true (parse_uint s w)
unfolding parse_int
parse_int_minus c w s e = ground arith

parse_int_plain :
    (c w : ℕ) (s : Bytes)
    → c ≢ b'+'
    → c ≢ b'-'
    → parse_int (c ∷ s) w ≡ with_sign w false (parse_uint (c ∷ s) w)
unfolding parse_int
parse_int_plain c w s p q = ground arith

parse_int-Numeral :
    (w : ℕ) (s : Bytes) (z : ℤ) → IsWidth w → parse_int s w ≡ value z → Numeral s z × Fits w z
parse_int-Numeral w [] z width h = absurd (unfold parse_int in ground arith)
parse_int-Numeral w (c ∷ s) z width h = elim (ℕ_discrete c b'+') [
  | yes is_plus ↦
      let (m, e, same, fits) =
        with_sign-false w (parse_uint s w) z (sym (parse_int_plus c w s is_plus) ∙ h) in
      (plus s m (ap (λ b. b ∷ s) is_plus) (parse_uint-Magnitude w s m e) same, fits)
  | no not_plus ↦ elim (ℕ_discrete c b'-') [
    | yes is_minus ↦
        let (m, e, same, fits) =
          with_sign-true w (parse_uint s w) z width (sym (parse_int_minus c w s is_minus) ∙ h) in
        (minus s m (ap (λ b. b ∷ s) is_minus) (parse_uint-Magnitude w s m e) same, fits)
    | no not_minus ↦
        let (m, e, same, fits) =
          with_sign-false w (parse_uint (c ∷ s) w) z
            (sym (parse_int_plain c w s not_plus not_minus) ∙ h) in
        (plain m (parse_uint-Magnitude w (c ∷ s) m e) same, fits)
  ]
]

false-with_sign :
    (w m : ℕ) (z : ℤ)
    → IsWidth w
    → z ≡ pos m
    → Fits w z
    → (m < 2 ^ w) × (with_sign w false (value m) ≡ value z)
unfolding with_sign
false-with_sign w m (pos n) width e fits = let d = width.doubles in (ground arith, ground arith)
false-with_sign w m (negsuc n) width e fits = absurd (ground arith)

true-with_sign :
    (w m : ℕ) (z : ℤ)
    → IsWidth w
    → z ≡ negate m
    → Fits w z
    → (m < 2 ^ w) × (with_sign w true (value m) ≡ value z)
unfolding with_sign
true-with_sign w zero z width e fits =
    let d = width.doubles in let p = width.positive in (ground arith, ground arith)
true-with_sign w (suc m) (pos n) width e fits = absurd (ground arith)
true-with_sign w (suc m) (negsuc n) width e fits =
    let d = width.doubles in let p = width.positive in (ground arith, ground arith)

Numeral-parse_int :
    (w : ℕ) (s : Bytes) (z : ℤ) → IsWidth w → Numeral s z → Fits w z → parse_int s w ≡ value z
Numeral-parse_int w [] z width (plain m (full, digits, d) e) fits = absurd (full refl)
Numeral-parse_int w (c ∷ s) z width (plain m (full, digits, d) e) fits =
    let (small, signed) = false-with_sign w m z width e fits in
    parse_int_plain c w s (λ p. omega arith) (λ p. omega arith)
    ∙ ap (with_sign w false) (Magnitude-parse_uint w (c ∷ s) m width small (full, digits, d))
    ∙ signed
Numeral-parse_int w s z width (plus t m is_plus h e) fits =
    let (small, signed) = false-with_sign w m z width e fits in
    ap (λ r. parse_int r w) is_plus
    ∙ parse_int_plus b'+' w t refl
    ∙ ap (with_sign w false) (Magnitude-parse_uint w t m width small h)
    ∙ signed
Numeral-parse_int w s z width (minus t m is_minus h e) fits =
    let (small, signed) = true-with_sign w m z width e fits in
    ap (λ r. parse_int r w) is_minus
    ∙ parse_int_minus b'-' w t refl
    ∙ ap (with_sign w true) (Magnitude-parse_uint w t m width small h)
    ∙ signed

-- In a width of 1 to 64 bits, `ParseInt` answers `z` exactly for the texts of `z`: digits, at least
-- one, perhaps behind a sign, and `z` fits the width.
pub parse_int-iff-Numeral :
    (w : ℕ) (s : Bytes) (z : ℤ) → IsWidth w → (parse_int s w ≡ value z) ↔ (Numeral s z × Fits w z)
parse_int-iff-Numeral w s z width =
    (parse_int-Numeral w s z width, λ (h, fits). Numeral-parse_int w s z width h fits)
