-- ===== src/Prelude/Format.antt =====
-- The formatting of `fmt` and `strings` that the program uses: `%d`, the parts of `%q` and
-- `strings.Join`.
use Prim.Native.String.{String, ◌++◌}
use mathlib.Core.List.{List, [], ◌∷◌}
use Prim.Native.Nat.{ℕ, zero, suc, ◌-◌, ◌/◌, ◌%◌}
use mathlib.Core.Bool.{true, false}
use traficctl.Prelude.Tests.{ltb}
use traficctl.Prelude.Int.{ℤ, pos, negsuc}

unfoldable pub join : String → List String → String
join sep [] = ""
join sep (s ∷ []) = s
join sep (s ∷ t ∷ ss) = s ++ (sep ++ join sep (t ∷ ss))

abbrev pub numerals : List String
numerals = "0" ∷ "1" ∷ "2" ∷ "3" ∷ "4" ∷ "5" ∷ "6" ∷ "7" ∷ "8" ∷ "9" ∷ []

-- The text at a place of a list.
abbrev pub text_at : List String → ℕ → String
text_at [] n = ""
text_at (s ∷ ss) zero = s
text_at (s ∷ ss) (suc n) = text_at ss n

abbrev pub digit : ℕ → String
digit = text_at numerals

abbrev hex : ℕ → String
hex n = elim (ltb n 10) [
  | true ↦ digit n
  | false ↦ text_at ("a" ∷ "b" ∷ "c" ∷ "d" ∷ "e" ∷ "f" ∷ []) (n - 10)
]

abbrev pub hex_byte : ℕ → String
hex_byte n = hex (n / 16) ++ hex (n % 16)

-- `\a` to `\r`: the characters 7 to 13.
abbrev pub control_letter : ℕ → String
control_letter = text_at ("a" ∷ "b" ∷ "t" ∷ "n" ∷ "v" ∷ "f" ∷ "r" ∷ [])

-- The fuel bounds the number of digits: a number below 10^40 needs 40 at most.
unfoldable pub digits : ℕ → ℕ → String
digits zero n = ""
digits (suc f) n = elim (ltb n 10) [ true ↦ digit n | false ↦ digits f (n / 10) ++ digit (n % 10) ]

-- `%d`
unfoldable pub decimal : ℤ → String
unfolding digits
decimal (pos n) = digits 40 n
decimal (negsuc n) = "-" ++ digits 40 (suc n)
