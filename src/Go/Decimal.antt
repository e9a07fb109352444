-- ===== src/Go/Decimal.antt =====
-- Decimal integers: `fmt.Sprintf("%d", n)`, `strconv.ParseUint`, `ParseInt` and `Atoi`.
pub mod RoundTrip
pub mod Numeral
use gitlab_ci_fargate_arm_dr.Prelude.{
  ℕ, zero, suc, ◌+◌, ◌-◌, ◌*◌, ◌/◌, ◌%◌, ◌^◌, ◌≡◌, refl, Bytes, [], ◌∷◌, Bool, true, false, ◌||◌,
  ltb, leb, ◌==◌, codes, if◌then◌else◌,
}
use gitlab_ci_fargate_arm_dr.Go.Int.{ℤ, pos, negsuc, negate}

-- The loop of `fmtInteger` in base ten, on rounds left: twenty digits hold any uint64.
unfoldable pub fmt_loop : ℕ → ℕ → Bytes → Bytes
fmt_loop zero u buf = buf
fmt_loop (suc rounds) u buf =
    let more = fmt_loop rounds (u / 10) ((b'0' + u % 10) ∷ buf) in
    if leb 10 u then more else (b'0' + u) ∷ buf

unfoldable pub fmt_uint : ℕ → Bytes
unfolding fmt_loop
fmt_uint u = fmt_loop 20 u []

-- `%d` of an `int64`.
unfoldable pub fmt_int : ℤ → Bytes
unfolding fmt_uint
fmt_int (pos n) = fmt_uint n
fmt_int (negsuc n) = b'-' ∷ fmt_uint (n + 1)

-- A parsed value, `ErrSyntax` or `ErrRange`.
pub data Parsed (A : Type 0) : Type 0 where
  value : A → Parsed A
  bad_syntax : Parsed A
  out_of_range : Parsed A

-- The loop of `ParseUint` over base ten, on a uint64 `n` so far and a bit size of at most 64.
unfoldable pub parse_loop : ℕ → Bytes → ℕ → Parsed ℕ
parse_loop bit_size [] n = value n
parse_loop bit_size (c ∷ s) n =
    if ltb c b'0' || ltb b'9' c
    then bad_syntax
    else if leb ((2 ^ 64 - 1) / 10 + 1) n
    then out_of_range
    else let n1 = (n * 10 + (c - b'0')) % 2 ^ 64 in
      if ltb n1 (n * 10) || ltb (2 ^ bit_size - 1) n1
      then out_of_range
      else parse_loop bit_size s n1

unfoldable pub parse_uint : Bytes → ℕ → Parsed ℕ
unfolding parse_loop
parse_uint [] bit_size = bad_syntax
parse_uint (c ∷ s) bit_size = parse_loop bit_size (c ∷ s) 0

-- The range check of `ParseInt` on the magnitude.
unfoldable pub with_sign : ℕ → Bool → Parsed ℕ → Parsed ℤ
with_sign bit_size negative bad_syntax = bad_syntax
with_sign bit_size negative out_of_range = out_of_range
with_sign bit_size false (value un) =
    if leb (2 ^ (bit_size - 1)) un then out_of_range else value (pos un)
with_sign bit_size true (value un) =
    if ltb (2 ^ (bit_size - 1)) un then out_of_range else value (negate un)

-- `strconv.ParseInt(s, 10, bitSize)`; `Atoi` is `ParseInt` at the bits of an `int`.
unfoldable pub parse_int : Bytes → ℕ → Parsed ℤ
unfolding parse_uint with_sign
parse_int [] bit_size = bad_syntax
parse_int (c ∷ s) bit_size =
    if c == b'+'
    then with_sign bit_size false (parse_uint s bit_size)
    else if c == b'-'
    then with_sign bit_size true (parse_uint s bit_size)
    else with_sign bit_size false (parse_uint (c ∷ s) bit_size)

print_parse_tests :
    (fmt_int (negsuc 41) ≡ codes "-42")
    × (parse_int (codes "-9223372036854775808") 64 ≡ value (negsuc 9223372036854775807))
    × (parse_int (codes "9223372036854775808") 64 ≡ out_of_range)
    × (parse_int (codes "99999999999999999999999x") 64 ≡ out_of_range)
    × (parse_int (codes "-") 64 ≡ bad_syntax)
    × (parse_int (codes "+7") 64 ≡ value (pos 7))
    × (parse_int (codes "3000000000") 64 ≡ value (pos 3000000000))
    × (parse_int (codes "3000000000") 32 ≡ out_of_range)
    × (parse_int (codes "-2147483648") 32 ≡ value (negsuc 2147483647))
    × (parse_int (codes "4294967296x") 32 ≡ out_of_range)
unfolding fmt_int parse_int
print_parse_tests = (refl, refl, refl, refl, refl, refl, refl, refl, refl, refl)
