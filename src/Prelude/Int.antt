-- ===== src/Prelude/Int.antt =====
-- Signed integers over the native numbers, and Go's `int32`: an integer that wraps into 32 bits.
use Prim.Native.Nat.{ℕ, suc, ◌+◌, ◌-◌, ◌*◌, ◌%◌, ◌^◌, ◌≤◌, ◌<◌}
use mathlib.Core.Path.{◌≡◌}
use mathlib.Core.Bool.{Bool, false}
use native.Mathlib.Omega.{arith}
use traficctl.Prelude.Tests.{ltb, leb, if◌then◌else◌}

-- `negsuc n` is -(n + 1).
pub data ℤ : Type 0 where
  pos : ℕ → ℤ
  negsuc : ℕ → ℤ

abbrev pub pos_part : ℤ → ℕ
pos_part (pos n) = n
pos_part (negsuc n) = 0

abbrev pub neg_part : ℤ → ℕ
neg_part (pos n) = 0
neg_part (negsuc n) = suc n

-- a - b, as an integer.
abbrev pub sub_ℕ : ℕ → ℕ → ℤ
sub_ℕ a b = if leb b a then pos (a - b) else negsuc (b - a - 1)

infixl 65 ◌+ℤ◌ ◌-ℤ◌
infix 50 ◌≤ℤ◌ ◌<ℤ◌
unfoldable pub ◌+ℤ◌ : ℤ → ℤ → ℤ
a +ℤ b = sub_ℕ (pos_part a + pos_part b) (neg_part a + neg_part b)

unfoldable pub ◌-ℤ◌ : ℤ → ℤ → ℤ
a -ℤ b = sub_ℕ (pos_part a + neg_part b) (neg_part a + pos_part b)

abbrev pub ◌≤ℤ◌ : ℤ → ℤ → Type 0
a ≤ℤ b = pos_part a + neg_part b ≤ pos_part b + neg_part a

abbrev pub ◌<ℤ◌ : ℤ → ℤ → Type 0
a <ℤ b = pos_part a + neg_part b < pos_part b + neg_part a

abbrev pub lt_int : ℤ → ℤ → Bool
lt_int a b = ltb (pos_part a + neg_part b) (pos_part b + neg_part a)

abbrev pub le_int : ℤ → ℤ → Bool
le_int a b = leb (pos_part a + neg_part b) (pos_part b + neg_part a)

abbrev pub eq_int : ℤ → ℤ → Bool
eq_int a b = if le_int a b then le_int b a else false

-- The residue of a 32-bit pattern, read as a signed number.
abbrev pub of_pattern : ℕ → ℤ
of_pattern w = if ltb w (2 ^ 31) then pos w else negsuc (2 ^ 32 - w - 1)

-- Conversion to `int32`: reduction modulo 2^32 into the signed range.
unfoldable pub wrap32 : ℤ → ℤ
wrap32 (pos n) = of_pattern (n % 2 ^ 32)
wrap32 (negsuc n) = of_pattern (2 ^ 32 - 1 - n % 2 ^ 32)

abbrev pub add32 : ℤ → ℤ → ℤ
add32 a b = wrap32 (a +ℤ b)

abbrev pub sub32 : ℤ → ℤ → ℤ
sub32 a b = wrap32 (a -ℤ b)

abbrev pub IsInt32 : ℤ → Type 0
IsInt32 a = (pos_part a < 2 ^ 31) × (neg_part a ≤ 2 ^ 31)

pub wrap32_id : (a : ℤ) → pos_part a < 2 ^ 31 → neg_part a ≤ 2 ^ 31 → wrap32 a ≡ a
unfolding wrap32
wrap32_id (pos n) h k = ground arith
wrap32_id (negsuc n) h k = ground arith

pub +ℤ_parts :
    (a b : ℤ)
    → pos_part (a +ℤ b) + neg_part a + neg_part b ≡ neg_part (a +ℤ b) + pos_part a + pos_part b
unfolding ◌+ℤ◌
+ℤ_parts a b = ground arith

pub -ℤ_parts :
    (a b : ℤ)
    → pos_part (a -ℤ b) + neg_part a + pos_part b ≡ neg_part (a -ℤ b) + pos_part a + neg_part b
unfolding ◌-ℤ◌
-ℤ_parts a b = ground arith

-- One of the two parts is 0.
pub one_part : (a : ℤ) → pos_part a * neg_part a ≡ 0
one_part (pos n) = omega arith
one_part (negsuc n) = omega arith

pub eq_of_parts : (a b : ℤ) → pos_part a + neg_part b ≡ pos_part b + neg_part a → a ≡ b
eq_of_parts a b h = ground arith

pub ruleset int_laws = (arith, +ℤ_parts, -ℤ_parts, eq_of_parts)

pub wrap32-IsInt32 : (a : ℤ) → IsInt32 (wrap32 a)
unfolding wrap32
wrap32-IsInt32 (pos n) = ground arith
wrap32-IsInt32 (negsuc n) = ground arith

-- A decrement above another `int32`, and an increment below one, do not wrap.
pub sub32-one_parts :
    (a b : ℤ)
    → IsInt32 a
    → IsInt32 b
    → b <ℤ a
    → pos_part (sub32 a (pos 1)) + neg_part a + 1 ≡ neg_part (sub32 a (pos 1)) + pos_part a
unfolding wrap32 ◌-ℤ◌
sub32-one_parts (pos n) b ia ib h = ground arith
sub32-one_parts (negsuc n) b ia ib h = ground arith

pub add32-one_parts :
    (a b : ℤ)
    → IsInt32 a
    → IsInt32 b
    → a <ℤ b
    → pos_part (add32 a (pos 1)) + neg_part a ≡ neg_part (add32 a (pos 1)) + pos_part a + 1
unfolding wrap32 ◌+ℤ◌
add32-one_parts (pos n) b ia ib h = ground arith
add32-one_parts (negsuc n) b ia ib h = ground arith

-- The two laws of a guarded step, with the range of its result.
pub sub32-one :
    (a b : ℤ)
    → IsInt32 a
    → IsInt32 b
    → b <ℤ a
    → IsInt32 (sub32 a (pos 1))
      × (pos_part (sub32 a (pos 1)) + neg_part a + 1 ≡ neg_part (sub32 a (pos 1)) + pos_part a)
sub32-one a b ia ib h = (wrap32-IsInt32 _, sub32-one_parts a b ia ib h)

pub add32-one :
    (a b : ℤ)
    → IsInt32 a
    → IsInt32 b
    → a <ℤ b
    → IsInt32 (add32 a (pos 1))
      × (pos_part (add32 a (pos 1)) + neg_part a ≡ neg_part (add32 a (pos 1)) + pos_part a + 1)
add32-one a b ia ib h = (wrap32-IsInt32 _, add32-one_parts a b ia ib h)
