-- ===== src/Prelude/Order/Sorting.antt =====
-- The stable sort puts a list in order, by a comparison that is a weak order on its elements.
use mathlib.Core.Path.{◌≡◌}
use mathlib.Core.Logic.{inl, inr}
use mathlib.Core.Bool.{Bool, true, false}
use mathlib.Core.List.{List, [], ◌∷◌, reverse_aux}
use traficctl.Prelude.Lists.{All}
use traficctl.Prelude.Sort.{stable_sort, sort_from, sink, All-sink}
use traficctl.Prelude.Tests.{Bool-cases}
use traficctl.Prelude.Order.Sorted.{IsSorted}

-- Nothing is before what it is after, and what is not before is so in a chain, among the elements of `P`.
pub record IsWeakOrder {κ} {A : Type 0} (P : A → Type κ) (less : A → A → Bool) : Type κ where
  pub asymmetric : (a b : A) → P a → P b → less a b ≡ true → less b a ≡ false
  pub negatively_transitive :
      (a b c : A) → P a → P b → P c → less a b ≡ false → less b c ≡ false → less a c ≡ false

module _ {κ} {A : Type 0} (P : A → Type κ) (less : A → A → Bool) (weak : IsWeakOrder P less) where
  -- The last element first.
  abbrev IsBackward : List A → Type 0
  IsBackward [] = Unit
  IsBackward (y ∷ ys) = All (λ z. less y z ≡ false) ys × IsBackward ys

  sink-IsBackward :
      (x : A) (back : List A) → P x → All P back → IsBackward back → IsBackward (sink less x back)
  unfolding sink
  sink-IsBackward x [] px ps b = (tt, tt)
  sink-IsBackward x (y ∷ back) px (py, ps) (h, b) = elim (Bool-cases (less x y)) [
    | inl e ↦
        rw (e, sink)
          (
            (All-sink less (λ z. less y z ≡ false) x back).1 (weak.asymmetric x y px py e, h),
            sink-IsBackward x back px ps b,
          )
    | inr e ↦ rw (e, sink) ((e, after x y back px py ps e h), (h, b))
  ]
    where
      after :
          (x y : A) (zs : List A)
          → P x
          → P y
          → All P zs
          → less x y ≡ false
          → All (λ z. less y z ≡ false) zs
          → All (λ z. less x z ≡ false) zs
      after x y [] px py ps e h = tt
      after x y (z ∷ zs) px py (pz, ps) e (k, h) =
          (weak.negatively_transitive x y z px py pz e k, after x y zs px py ps e h)

  reversed-IsSorted :
      (back acc : List A)
      → IsBackward back
      → IsSorted less acc
      → All (λ z. All (λ a. less a z ≡ false) acc) back
      → IsSorted less (reverse_aux back acc)
  reversed-IsSorted [] acc b s cross = s
  reversed-IsSorted (y ∷ ys) acc (h, b) s (here, cross) =
      reversed-IsSorted ys (y ∷ acc) b (here, s) (both ys h cross)
    where
      both :
          (zs : List A)
          → All (λ z. less y z ≡ false) zs
          → All (λ z. All (λ a. less a z ≡ false) acc) zs
          → All (λ z. All (λ a. less a z ≡ false) (y ∷ acc)) zs
      both [] h c = tt
      both (z ∷ zs) (h, hs) (c, cs) = ((h, c), both zs hs cs)

  sort_from-IsSorted :
      (back xs : List A)
      → All P back
      → All P xs
      → IsBackward back
      → IsSorted less (sort_from less back xs)
  unfolding sort_from
  sort_from-IsSorted back [] pb px b = reversed-IsSorted back [] b tt (alone back)
    where
      alone : (zs : List A) → All (λ z. All (λ a. less a z ≡ false) []) zs
      alone [] = tt
      alone (z ∷ zs) = (tt, alone zs)
  sort_from-IsSorted back (x ∷ xs) pb (px, ps) b =
      sort_from-IsSorted (sink less x back) xs ((All-sink less P x back).1 (px, pb)) ps
        (sink-IsBackward x back px pb b)

  pub stable_sort-IsSorted : (xs : List A) → All P xs → IsSorted less (stable_sort less xs)
  unfolding stable_sort
  stable_sort-IsSorted xs ps = sort_from-IsSorted [] xs tt ps tt
