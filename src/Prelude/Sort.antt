-- ===== src/Prelude/Sort.antt =====
-- Go's `sort.SliceStable`: up to 20 elements it is the insertion sort below, which moves an element
-- left while `less` holds between it and its left neighbour; longer slices are sorted in such blocks
-- and merged, with the same result for a strict weak order.
use Prim.Native.Nat.{ℕ, ◌+◌}
use mathlib.Core.Path.{◌≡◌, refl}
use mathlib.Core.Logic.{◌↔◌, inl, inr}
use mathlib.Core.Bool.{Bool}
use mathlib.Core.List.{
  List, [], ◌∷◌, ◌++◌, reverse, reverse_aux, Perm, reverse_perm, perm_middle, append-nil,
}
use mathlib.Core.List.Perm
use native.Mathlib.Omega.{arith}
use traficctl.Prelude.Tests.{if◌then◌else◌, Bool-cases}
use traficctl.Prelude.Lists.{All, All-reverse_aux}

module _ {ℓ} {A : Type ℓ} (f : A → ℕ) where
  abbrev pub sum_by : List A → ℕ
  sum_by [] = 0
  sum_by (x ∷ xs) = f x + sum_by xs

  sum_by-reverse_aux : (xs acc : List A) → sum_by (reverse_aux xs acc) ≡ sum_by xs + sum_by acc
  sum_by-reverse_aux [] acc = omega arith
  sum_by-reverse_aux (x ∷ xs) acc = omega (arith, sum_by-reverse_aux xs (x ∷ acc))

module _ {ℓ} {A : Type ℓ} (less : A → A → Bool) where
  -- `back` is the sorted part, last element first; `x` moves left past every greater neighbour.
  unfoldable pub sink : A → List A → List A
  sink x [] = x ∷ []
  sink x (y ∷ back) = if less x y then y ∷ sink x back else x ∷ y ∷ back

  unfoldable pub sort_from : List A → List A → List A
  unfolding sink
  sort_from back [] = reverse back
  sort_from back (x ∷ xs) = sort_from (sink x back) xs

  unfoldable pub stable_sort : List A → List A
  unfolding sort_from
  stable_sort xs = sort_from [] xs

  pub All-sink {κ} :
      (P : A → Type κ) (x : A) (back : List A) → All P (sink x back) ↔ (P x × All P back)
  unfolding sink
  All-sink P x [] = (λ h. h, λ h. h)
  All-sink P x (y ∷ back) = elim (Bool-cases (less x y)) [
    | inl e ↦
        let ih = All-sink P x back in
        rw (e, sink)
          (λ (py, h). let (px, r) = ih.0 h in (px, (py, r)), λ (px, (py, r)). (py, ih.1 (px, r)))
    | inr e ↦ rw (e, sink) (λ h. h, λ h. h)
  ]

  All-sort_from {κ} :
      (P : A → Type κ) (back xs : List A) → All P (sort_from back xs) ↔ (All P back × All P xs)
  unfolding sort_from
  All-sort_from P back [] = let r = All-reverse_aux P back [] in (λ h. r.0 h, λ h. r.1 h)
  All-sort_from P back (x ∷ xs) =
      let ih = All-sort_from P (sink x back) xs in
      let s = All-sink P x back in
      (
        λ h. let (b, r) = ih.0 h in let (px, b') = s.0 b in (b', (px, r)),
        λ (b, (px, r)). ih.1 (s.1 (px, b), r),
      )

  -- Sorting neither loses nor invents an element.
  pub All-stable_sort {κ} : (P : A → Type κ) (xs : List A) → All P (stable_sort xs) ↔ All P xs
  unfolding stable_sort
  All-stable_sort P xs = let h = All-sort_from P [] xs in (λ a. (h.0 a).1, λ a. h.1 (tt, a))

  sink-perm : (x : A) (back : List A) → Perm (sink x back) (x ∷ back)
  unfolding sink
  sink-perm x [] = Perm.rfl
  sink-perm x (y ∷ back) = elim (Bool-cases (less x y)) [
    | inl e ↦ rw (e, sink) (Perm.trans (Perm.cons y (sink-perm x back)) (Perm.swap x y back))
    | inr e ↦ rw (e, sink) Perm.rfl
  ]

  sort_from-perm : (back xs : List A) → Perm (sort_from back xs) (back ++ xs)
  unfolding sort_from
  sort_from-perm back [] = rw append-nil (reverse_perm back)
  sort_from-perm back (x ∷ xs) =
      Perm.trans (sort_from-perm (sink x back) xs)
        (Perm.trans (Perm.append_right xs (sink-perm x back)) (Perm.symm (perm_middle back xs)))

  pub stable_sort-perm : (xs : List A) → Perm (stable_sort xs) xs
  unfolding stable_sort
  stable_sort-perm xs = sort_from-perm [] xs

  sum_by-sink : (f : A → ℕ) (x : A) (back : List A) → sum_by f (sink x back) ≡ f x + sum_by f back
  unfolding sink
  sum_by-sink f x [] = refl
  sum_by-sink f x (y ∷ back) = elim (Bool-cases (less x y)) [
    | inl e ↦ rw (e, sink) (omega (arith, sum_by-sink f x back))
    | inr e ↦ rw (e, sink)
  ]

  sum_by-sort_from :
      (f : A → ℕ) (back xs : List A) → sum_by f (sort_from back xs) ≡ sum_by f back + sum_by f xs
  unfolding sort_from
  sum_by-sort_from f back [] = sum_by-reverse_aux f back []
  sum_by-sort_from f back (x ∷ xs) =
      omega (arith, sum_by-sort_from f (sink x back) xs, sum_by-sink f x back)

  -- A sum over a list does not change when the list is sorted.
  pub sum_by-stable_sort : (f : A → ℕ) (xs : List A) → sum_by f (stable_sort xs) ≡ sum_by f xs
  unfolding stable_sort
  sum_by-stable_sort f xs = omega (arith, sum_by-sort_from f [] xs)
