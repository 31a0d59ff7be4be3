-- ===== src/Prelude/Float.antt =====
-- Go's `float64`, as the constants, the arithmetic, the comparisons and the conversions that the
-- program uses. A comparison with NaN is false.
use Prim.Native.Nat.{ℕ, ◌*◌, ◌/◌, ◌^◌, ◌≤◌, ◌<◌}
use mathlib.Core.Path.{◌≡◌}
use mathlib.Core.Bool.{Bool}
use traficctl.Prelude.Int.{ℤ, pos}

pub record Float (F : Type 0) : Type 0 where
  pub nought : F
  pub one : F
  pub add : F → F → F
  pub sub : F → F → F
  pub mul : F → F → F
  pub div : F → F → F
  pub lt : F → F → Bool
  pub le : F → F → Bool
  pub eq : F → F → Bool
  pub of_int : ℤ → F  -- float64(n)
  pub to_int32 : F → ℤ  -- int32(x)

-- A fact of IEEE 754 double precision: the product of two integers up to 100 is exact, and a
-- correctly rounded quotient by an integer below 2^31 reaches the next integer only if it is one, so
-- that the conversion to an integer gives the integer quotient.
pub record TruncatesShares (F : Type 0) ⦃fl : Float F⦄ : Type 0 where
  pub truncates :
      (r h t : ℕ)
      → r ≤ 100
      → h ≤ 100
      → 0 < t
      → t < 2 ^ 31
      → fl.to_int32 (fl.div (fl.mul (fl.of_int (pos r)) (fl.of_int (pos h))) (fl.of_int (pos t)))
        ≡ pos (r * h / t)
