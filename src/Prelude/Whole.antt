-- ===== src/Prelude/Whole.antt =====
-- A number type for the tests: whole numbers, with the quotient rounded towards zero.
use traficctl.Prelude.{ℕ, suc, ◌*◌, ◌/◌, ◌≡◌, ap, arith}
use traficctl.Prelude.Int.{
  ℤ, pos, negsuc, pos_part, neg_part, ◌+ℤ◌, ◌-ℤ◌, lt_int, le_int, eq_int, eq_of_parts,
}
use traficctl.Prelude.Float.{Float, TruncatesShares}

abbrev pub times : ℤ → ℤ → ℤ
times a b =
    pos (pos_part a * pos_part b)
    +ℤ pos (neg_part a * neg_part b)
    -ℤ pos (pos_part a * neg_part b)
    -ℤ pos (neg_part a * pos_part b)

abbrev pub quotient : ℤ → ℤ → ℤ
quotient (pos a) (pos b) = pos (a / b)
quotient (pos a) (negsuc b) = pos 0 -ℤ pos (a / suc b)
quotient (negsuc a) (pos b) = pos 0 -ℤ pos (suc a / b)
quotient (negsuc a) (negsuc b) = pos (suc a / suc b)

instance abbrev pub whole : Float ℤ
whole = record {
  nought = pos 0;
  one = pos 1;
  add = ◌+ℤ◌;
  sub = ◌-ℤ◌;
  mul = times;
  div = quotient;
  lt = lt_int;
  le = le_int;
  eq = eq_int;
  of_int = λ n. n;
  to_int32 = λ n. n;
}

times_pos : (a b : ℕ) → times (pos a) (pos b) ≡ pos (a * b)
unfolding ◌+ℤ◌ ◌-ℤ◌
times_pos a b = eq_of_parts _ _ (ground arith)

pub whole-TruncatesShares : TruncatesShares ℤ
whole-TruncatesShares = record {
  truncates = λ r h t _ _ _ _. ap (λ z. quotient z (pos t)) (times_pos r h);
}
