-- ===== src/Go/Int.antt =====
-- Go's `int` and `int64`, as integers. An `int` has 32 bits on linux/386 and linux/arm and 64 bits
-- on the other platforms of the Makefile: `IntSize` is `strconv.IntSize`.
use gitlab_ci_fargate_arm_dr.Prelude.{ℕ, suc, ◌^◌, ◌<◌, Bool, ltb, true}

-- `negsuc n` is -(n + 1).
pub data ℤ : Type 0 where
  pos : ℕ → ℤ
  negsuc : ℕ → ℤ

-- The bits of an `int` on the platform of the build.
pub data IntSize : Type 0 where
  bits_32 : IntSize
  bits_64 : IntSize

abbrev pub bits : IntSize → ℕ
bits bits_32 = 32
bits bits_64 = 64

-- The values of an `int64`.
abbrev pub InRange : ℤ → Type 0
InRange (pos n) = n < 2 ^ 63
InRange (negsuc n) = n < 2 ^ 63

-- `z < 1`
abbrev pub below_one : ℤ → Bool
below_one (pos n) = ltb n 1
below_one (negsuc n) = true

-- `-z` of a number that is not negative.
abbrev pub negate : ℕ → ℤ
negate ℕ.zero = pos 0
negate (suc n) = negsuc n
