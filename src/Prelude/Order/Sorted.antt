-- ===== src/Prelude/Order/Sorted.antt =====
-- A list in order is determined by its elements.
use mathlib.Core.Path.{◌≡◌, sym, ◌∙◌, ap, subst}
use mathlib.Core.Logic.Or
use mathlib.Core.Bool.{Bool, false}
use mathlib.Core.List.{
  List, [], ◌∷◌, Mem, Perm, mem-cons, mem-cons_self, mem-cons_of_mem, not-mem-nil,
}
use mathlib.Core.List.Perm
use traficctl.Prelude.Lists.{All}

module _ {A : Type 0} (lt : A → A → Bool) where
  -- No element is before an earlier one.
  abbrev pub IsSorted : List A → Type 0
  IsSorted [] = Unit
  IsSorted (x ∷ xs) = All (λ y. lt y x ≡ false) xs × IsSorted xs

  Bool-set : IsSet Bool
  Bool-set = hlevel

  not_before : (x y : A) (ys : List A) → All (λ z. lt z x ≡ false) ys → Mem y ys → lt y x ≡ false
  not_before x y [] h m = absurd (not-mem-nil m)
  not_before x y (z ∷ zs) (h, hs) m =
      Or.elim (Bool-set (lt y x) false) (mem-cons.0 m) (λ e. ap (λ a. lt a x) e ∙ h)
        (not_before x y zs hs)

  -- If two elements of which neither is before the other are equal: two lists in order with the same
  -- elements are equal.
  pub IsSorted-unique :
      IsSet A
      → (xs ys : List A)
      → ((a b : A) → Mem a xs → Mem b xs → lt a b ≡ false → lt b a ≡ false → a ≡ b)
      → Perm xs ys
      → IsSorted xs
      → IsSorted ys
      → xs ≡ ys
  IsSorted-unique is_set [] ys key p h k = Perm.nil-eq p
  IsSorted-unique is_set (x ∷ xs) [] key p h k = Perm.eq-nil p
  IsSorted-unique is_set (x ∷ xs) (y ∷ ys) key p (hx, h) (ky, k) =
      let back : Mem y (x ∷ xs) = Perm.subset (Perm.symm p) y mem-cons_self in
      let same : x ≡ y =
        Or.elim (is_set x y) (mem-cons.0 back) (λ e. sym e)
          λ m.
            Or.elim (is_set x y) (mem-cons.0 (Perm.subset p x mem-cons_self)) (λ e. e)
              λ m'. key x y mem-cons_self back (not_before y x ys ky m') (not_before x y xs hx m) in
      let rest : Perm xs ys =
        Perm.cons_inv {a = x} (subst (λ (c : A). Perm (x ∷ xs) (c ∷ ys)) (sym same) p) in
      let tails =
        IsSorted-unique is_set xs ys
          (λ a b m m'. key a b (mem-cons_of_mem x m) (mem-cons_of_mem x m')) rest h k in
      λ i. same i ∷ tails i
