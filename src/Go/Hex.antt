-- ===== src/Go/Hex.antt =====
-- `fmt.Sprintf("%x", b)` on bytes: two lower-case digits for each.
use gitlab_ci_fargate_arm_dr.Prelude.{
  ℕ, ◌+◌, ◌-◌, ◌/◌, ◌%◌, ◌<◌, ◌≡◌, refl, ◌≢◌, [], ◌∷◌, Bytes, All, Lacks, ltb, if◌then◌else◌, arith,
}

abbrev pub IsByte : ℕ → Type 0
IsByte c = c < 256

hex_digit : ℕ → ℕ
hex_digit d = if ltb d 10 then b'0' + d else b'a' + d - 10

unfoldable pub hex : Bytes → Bytes
unfolding hex_digit
hex [] = []
hex (c ∷ s) = hex_digit (c / 16) ∷ hex_digit (c % 16) ∷ hex s

hex_digit-injective : (a b : ℕ) → a < 16 → b < 16 → hex_digit a ≡ hex_digit b → a ≡ b
unfolding hex_digit
hex_digit-injective a b ha hb h = ground arith

pub hex-injective : (s t : Bytes) → All IsByte s → All IsByte t → hex s ≡ hex t → s ≡ t
unfolding hex
hex-injective [] [] hs ht h = refl
hex-injective [] (d ∷ t) hs ht h = ground arith
hex-injective (c ∷ s) [] hs ht h = ground arith
hex-injective (c ∷ s) (d ∷ t) hs ht h = ground (
  arith,
  hex_digit-injective (c / 16) (d / 16),
  hex_digit-injective (c % 16) (d % 16),
  hex-injective s t hs.1 ht.1,
)

hex_digit-ne-dash : (d : ℕ) → hex_digit d ≢ b'-'
unfolding hex_digit
hex_digit-ne-dash d h = ground arith

-- A hexadecimal print has no dash.
pub hex-Lacks : (s : Bytes) → Lacks b'-' (hex s)
unfolding hex
hex-Lacks [] = tt
hex-Lacks (c ∷ s) = (hex_digit-ne-dash (c / 16), (hex_digit-ne-dash (c % 16), hex-Lacks s))
