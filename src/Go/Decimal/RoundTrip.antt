-- ===== src/Go/Decimal/RoundTrip.antt =====
-- Printing and parsing of integers.
use native.Mathlib.Decide.{dec_lt}
use native.Mathlib.Nat.{pow-suc}
use gitlab_ci_fargate_arm_dr.Prelude.{
  ℕ, zero, suc, ◌+◌, ◌/◌, ◌%◌, ◌^◌, ◌≤◌, ◌<◌, ◌≡◌, refl, ap, ◌∙◌, Bytes, [], ◌∷◌, Lacks, arith,
  Bool, true, false,
}
use gitlab_ci_fargate_arm_dr.Go.Int.{ℤ, pos, negsuc, InRange}
use gitlab_ci_fargate_arm_dr.Go.Decimal.{
  fmt_loop, fmt_uint, fmt_int, Parsed, value, parse_loop, parse_uint, with_sign, parse_int,
}

-- Reading the last digit of `u` after the digits before it gives `u`.
parse_last :
    (u : ℕ) (buf : Bytes)
    → u < 2 ^ 64
    → parse_loop 64 ((b'0' + u % 10) ∷ buf) (u / 10) ≡ parse_loop 64 buf u
unfolding parse_loop
parse_last u buf h = ground arith

parse_first :
    (u : ℕ) (buf : Bytes) → u < 10 → parse_loop 64 ((b'0' + u) ∷ buf) 0 ≡ parse_loop 64 buf u
unfolding parse_loop
parse_first u buf h = ground arith

fmt_loop_more :
    (rounds u : ℕ) (buf : Bytes)
    → 10 ≤ u
    → fmt_loop (suc rounds) u buf ≡ fmt_loop rounds (u / 10) ((b'0' + u % 10) ∷ buf)
unfolding fmt_loop
fmt_loop_more rounds u buf h = ground arith

fmt_loop_last :
    (rounds u : ℕ) (buf : Bytes) → u < 10 → fmt_loop (suc rounds) u buf ≡ (b'0' + u) ∷ buf
unfolding fmt_loop
fmt_loop_last rounds u buf h = ground arith

tenth_lt_pow : (rounds u : ℕ) → u < 10 ^ suc rounds → u / 10 < 10 ^ rounds
tenth_lt_pow rounds u h = omega (arith, pow-suc 10 rounds)

-- Enough rounds for the value: the digits read back.
parse_loop-fmt_loop :
    (rounds u : ℕ) (buf : Bytes)
    → u < 10 ^ rounds
    → u < 2 ^ 64
    → parse_loop 64 (fmt_loop rounds u buf) 0 ≡ parse_loop 64 buf u
parse_loop-fmt_loop zero u buf h fits = unfold fmt_loop in ap (parse_loop 64 buf) (omega arith)
parse_loop-fmt_loop (suc rounds) u buf h fits = elim (dec_lt u 10) [
  | yes small ↦ rw (fmt_loop_last rounds u buf small) (parse_first u buf small)
  | no large ↦ rw (fmt_loop_more rounds u buf (omega arith)) (
      parse_loop-fmt_loop rounds (u / 10) ((b'0' + u % 10) ∷ buf) (tenth_lt_pow rounds u h)
        (omega arith)
      ∙ parse_last u buf fits)
]

fmt_loop-Lacks :
    (b rounds u : ℕ) (buf : Bytes) → b < b'0' → Lacks b buf → Lacks b (fmt_loop rounds u buf)
fmt_loop-Lacks b zero u buf below h = unfold fmt_loop in h
fmt_loop-Lacks b (suc rounds) u buf below h = elim (dec_lt u 10) [
  | yes small ↦ rw (fmt_loop_last rounds u buf small) (λ e. omega arith, h)
  | no large ↦
      rw (fmt_loop_more rounds u buf (omega arith))
        (fmt_loop-Lacks b rounds (u / 10) _ below (λ e. omega arith, h))
]

-- A print of a number that is not negative has no dash.
pub fmt_uint-Lacks : (u : ℕ) → Lacks b'-' (fmt_uint u)
unfolding fmt_uint
fmt_uint-Lacks u = fmt_loop-Lacks b'-' 20 u [] (omega arith) tt

abbrev StartsDigit : Bytes → Type 0
StartsDigit [] = ⊥
StartsDigit (c ∷ s) = b'0' ≤ c

fmt_loop-StartsDigit :
    (rounds u : ℕ) (buf : Bytes) → StartsDigit buf → StartsDigit (fmt_loop rounds u buf)
fmt_loop-StartsDigit zero u buf h = unfold fmt_loop in h
fmt_loop-StartsDigit (suc rounds) u buf h = elim (dec_lt u 10) [
  | yes small ↦ rw (fmt_loop_last rounds u buf small) (omega arith)
  | no large ↦
      rw (fmt_loop_more rounds u buf (omega arith))
        (fmt_loop-StartsDigit rounds (u / 10) _ (omega arith))
]

fmt_uint-StartsDigit : (u : ℕ) → StartsDigit (fmt_uint u)
unfolding fmt_uint
fmt_uint-StartsDigit u = elim (dec_lt u 10) [
  | yes small ↦ rw (fmt_loop_last 19 u [] small) (omega arith)
  | no large ↦
      rw (fmt_loop_more 19 u [] (omega arith)) (fmt_loop-StartsDigit 19 (u / 10) _ (omega arith))
]

parse_uint-parse_loop : (s : Bytes) → StartsDigit s → parse_uint s 64 ≡ parse_loop 64 s 0
unfolding parse_uint
parse_uint-parse_loop [] h = absurd h
parse_uint-parse_loop (c ∷ s) h = refl

pub parse_uint-fmt_uint : (u : ℕ) → u < 2 ^ 64 → parse_uint (fmt_uint u) 64 ≡ value u
parse_uint-fmt_uint u h =
    parse_uint-parse_loop (fmt_uint u) (fmt_uint-StartsDigit u)
    ∙ unfold fmt_uint parse_loop in parse_loop-fmt_loop 20 u [] (omega arith) h

parse_int_unsigned :
    (s : Bytes) → StartsDigit s → parse_int s 64 ≡ with_sign 64 false (parse_uint s 64)
unfolding parse_int
parse_int_unsigned [] h = absurd h
parse_int_unsigned (c ∷ s) h = ground arith

-- Every int64 is read back from its decimal print.
pub parse_int-fmt_int : (z : ℤ) → InRange z → parse_int (fmt_int z) 64 ≡ value z
unfolding fmt_int with_sign
parse_int-fmt_int (pos n) h =
    rw (parse_int_unsigned _ (fmt_uint-StartsDigit n), parse_uint-fmt_uint n (omega arith))
      (ground arith)
parse_int-fmt_int (negsuc n) h =
    unfold parse_int in rw (parse_uint-fmt_uint (n + 1) (omega arith)) (ground arith)

with_sign-InRange :
    (negative : Bool) (r : Parsed ℕ) (z : ℤ) → with_sign 64 negative r ≡ value z → InRange z
unfolding with_sign
with_sign-InRange false r (pos n) h = ground arith
with_sign-InRange false r (negsuc n) h = ground arith
with_sign-InRange true r (pos n) h = ground arith
with_sign-InRange true r (negsuc n) h = ground arith

-- What `ParseInt` accepts fits an int64.
pub parse_int-InRange : (s : Bytes) (z : ℤ) → parse_int s 64 ≡ value z → InRange z
unfolding parse_int
parse_int-InRange [] z h = absurd (cc)
parse_int-InRange (c ∷ s) z h = ground (
  arith,
  with_sign-InRange false (parse_uint s 64) z,
  with_sign-InRange true (parse_uint s 64) z,
  with_sign-InRange false (parse_uint (c ∷ s) 64) z,
)

-- Prints of numbers that are not negative differ where the numbers do.
pub fmt_uint-injective : (m n : ℕ) → m < 2 ^ 63 → n < 2 ^ 63 → fmt_uint m ≡ fmt_uint n → m ≡ n
fmt_uint-injective m n hm hn e =
    let p : parse_uint (fmt_uint m) 64 ≡ value m = parse_uint-fmt_uint m (omega arith) in
    let q : parse_uint (fmt_uint n) 64 ≡ value n = parse_uint-fmt_uint n (omega arith) in cc
