-- ===== src/Prelude/Dict.antt =====
-- Go maps keyed by strings, as association lists in insertion order. An assignment to a present key
-- replaces its value; `delete` of a missing key does nothing.
use Prim.Native.String.{String}
use mathlib.Core.Path.{◌≡◌, refl}
use mathlib.Core.Option.{Option, none, some}
use mathlib.Core.List.{List, [], ◌∷◌}
use native.Mathlib.Omega.{arith}
use text.Mathlib.Text.{◌==◌}
use text.Mathlib.TextEquality.{eq_iff}
use traficctl.Prelude.Tests.{if◌then◌else◌}

abbrev pub Dict {ℓ} : Type ℓ → Type ℓ
Dict V = List (String × V)

module _ {ℓ} {V : Type ℓ} where
  unfoldable pub delete : String → Dict V → Dict V
  delete gone [] = []
  delete gone ((name, value) ∷ rest) =
      if name == gone then delete gone rest else (name, value) ∷ delete gone rest

  unfoldable pub lookup : String → Dict V → Option V
  lookup wanted [] = none
  lookup wanted ((name, value) ∷ rest) = if name == wanted then some value else lookup wanted rest

  unfoldable pub insert : String → V → Dict V → Dict V
  insert key new [] = (key, new) ∷ []
  insert key new ((name, value) ∷ rest) =
      if name == key then (key, new) ∷ rest else (name, value) ∷ insert key new rest

  pub lookup-delete :
      (gone wanted : String) (dict : Dict V)
      → lookup wanted (delete gone dict) ≡ (if gone == wanted then none else lookup wanted dict)
  unfolding lookup delete
  lookup-delete gone wanted [] = ground arith
  lookup-delete gone wanted ((name, value) ∷ rest) =
      let ih = lookup-delete gone wanted rest in
      ground (arith, ih, eq_iff gone wanted, eq_iff name gone, eq_iff name wanted)

  pub lookup-insert :
      (key wanted : String) (new : V) (dict : Dict V)
      → lookup wanted (insert key new dict)
        ≡ (if key == wanted then some new else lookup wanted dict)
  unfolding lookup insert
  lookup-insert key wanted new [] = refl
  lookup-insert key wanted new ((name, value) ∷ rest) =
      let ih = lookup-insert key wanted new rest in
      ground (arith, ih, eq_iff key wanted, eq_iff name key, eq_iff name wanted)
