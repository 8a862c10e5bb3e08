-- ===== src/Prelude/Int.antt =====
-- Signed integers over the native numbers, under the library's names, and Go's `int32` on them.
-- Sums and orders go through the two parts of an integer, which are numbers that `omega` reads.
use Prim.Native.Nat.{ℕ, suc, ◌+◌, ◌-◌, ◌/◌, ◌%◌, ◌≤◌, ◌<◌}
use mathlib.Core.Path.{◌≡◌, refl}
use mathlib.Core.Bool.{Bool}
use native.Mathlib.Omega.{arith}
use praktikum.Prelude.Tests.{ltb, leb, ◌==◌, if◌then◌else◌}

-- `negsuc n` is -(n + 1).
pub data ℤ : Type 0 where
  pos : ℕ → ℤ
  negsuc : ℕ → ℤ

abbrev pub pos_part : ℤ → ℕ
pos_part (pos n) = n
pos_part (negsuc n) = 0

abbrev pub neg_part : ℤ → ℕ
neg_part (pos n) = 0
neg_part (negsuc n) = suc n

-- a - b, as an integer.
abbrev pub sub_ℕ : ℕ → ℕ → ℤ
sub_ℕ a b = if leb b a then pos (a - b) else negsuc (b - a - 1)

infixl 65 ◌+ℤ◌ ◌-ℤ◌
infix 50 ◌≤ℤ◌ ◌<ℤ◌
abbrev pub ◌+ℤ◌ : ℤ → ℤ → ℤ
a +ℤ b = sub_ℕ (pos_part a + pos_part b) (neg_part a + neg_part b)

abbrev pub ◌-ℤ◌ : ℤ → ℤ → ℤ
a -ℤ b = sub_ℕ (pos_part a + neg_part b) (neg_part a + pos_part b)

abbrev pub ◌≤ℤ◌ : ℤ → ℤ → Type 0
a ≤ℤ b = pos_part a + neg_part b ≤ pos_part b + neg_part a

abbrev pub ◌<ℤ◌ : ℤ → ℤ → Type 0
a <ℤ b = pos_part a + neg_part b < pos_part b + neg_part a

abbrev pub ltb_ℤ : ℤ → ℤ → Bool
ltb_ℤ a b = ltb (pos_part a + neg_part b) (pos_part b + neg_part a)

abbrev pub leb_ℤ : ℤ → ℤ → Bool
leb_ℤ a b = leb (pos_part a + neg_part b) (pos_part b + neg_part a)

abbrev pub eq_ℤ : ℤ → ℤ → Bool
eq_ℤ a b = (pos_part a + neg_part b) == (pos_part b + neg_part a)

abbrev pub zero_ℤ : ℤ
zero_ℤ = pos 0

abbrev pub one_ℤ : ℤ
one_ℤ = pos 1

abbrev pub two_ℤ : ℤ
two_ℤ = pos 2

-- The `int32` (or `int64`) that a w-bit pattern stands for; `half` is 2 ^ (w - 1).
abbrev pub of_pattern : ℕ → ℕ → ℤ
of_pattern half u = if ltb u half then pos u else negsuc (half + half - u - 1)

-- Conversion to `int32`: the value modulo 2 ^ 32, read as two's complement.
abbrev pub to_int32 : ℤ → ℤ
to_int32 (pos n) = of_pattern 2147483648 (n % 4294967296)
to_int32 (negsuc n) = of_pattern 2147483648 (4294967295 - n % 4294967296)

-- Go's `x / 2`, which truncates toward zero.
abbrev pub half_ℤ : ℤ → ℤ
half_ℤ (pos n) = pos (n / 2)
half_ℤ (negsuc n) = sub_ℕ 0 (suc n / 2)

abbrev pub int32_add : ℤ → ℤ → ℤ
int32_add a b = to_int32 (a +ℤ b)

abbrev pub int32_sub : ℤ → ℤ → ℤ
int32_sub a b = to_int32 (a -ℤ b)

-- On values of moderate size the wrap-around is the identity.
pub to_int32_small : (n : ℕ) → n < 2147483648 → to_int32 (pos n) ≡ pos n
to_int32_small n h = ground arith

to_int32_wraps : to_int32 (pos 2147483649) ≡ negsuc 2147483646
to_int32_wraps = refl

to_int32_negative : int32_sub zero_ℤ one_ℤ ≡ negsuc 0
to_int32_negative = refl
