-- ===== src/Prelude/Quote.antt =====
-- `%q` of `fmt`: a text in quotation marks, with escapes.
use Prim.Native.String.{String, [], ◌∷◌, ◌++◌}
use Prim.Native.Char.{code}
use Prim.Native.Nat.{ℕ, ◌-◌}
use mathlib.Core.Option.{Option, none, some}
use mathlib.Core.Bool.{◌&&◌, ◌||◌}
use traficctl.Prelude.Tests.{if◌then◌else◌, leb, eqb, ltb}
use traficctl.Prelude.Format.{control_letter, hex_byte}

-- What stands for a character in `%q`, by its number: a quotation mark and a backslash are escaped, and
-- so is what is not printable. Above U+00FF every character counts as printable.
unfoldable escaped : ℕ → Option String
escaped n =
    if eqb n 34
    then some "\\\""
    else (if eqb n 92
        then some "\\\\"
        else (if leb 7 n && leb n 13
            then some ("\\" ++ control_letter (n - 7))
            else (if ltb n 32 || eqb n 127
                then some ("\\x" ++ hex_byte n)
                else (if (leb 128 n && leb n 160) || eqb n 173
                    then some ("\\u00" ++ hex_byte n)
                    else none))))

unfoldable quoted : String → String
unfolding escaped
quoted [] = []
quoted (c ∷ s) = elim (escaped (code c)) [ none ↦ c ∷ quoted s | some e ↦ e ++ quoted s ]

-- `%q`
unfoldable pub quote : String → String
unfolding quoted
quote s = "\"" ++ (quoted s ++ "\"")
