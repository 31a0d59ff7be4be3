-- ===== src/Prelude/Order.antt =====
-- Strict total orders, the order of the bytes of texts among them, and lists that are in order.
pub mod Pairs
pub mod Sorted
pub mod Sorting
use Prim.Native.Nat.{ℕ, Ordering, compare as compare_ℕ}
use Prim.Native.String.compare
use Prim.Native.String.{String, [] as empty, ◌∷◌ as ◌prepend◌, then, compare as compare_text}
use Prim.Native.Char.{Char, code}
use text.Mathlib.TextEquality.{path_by_compare}
use native.Mathlib.Omega.{arith}
use mathlib.Core.Path.{◌≡◌, refl, sym, ◌∙◌, ap}
use mathlib.Core.Logic.{◌⊎◌, inl, inr}
use mathlib.Core.Bool.{Bool, true, false}
use traficctl.Prelude.Tests.{text_lt}

-- Of any two, one is before the other or they are equal.
pub record IsStrictOrder {A : Type 0} (lt : A → A → Bool) : Type 0 where
  pub total : (a b : A) → (lt a b ≡ true) ⊎ (a ≡ b) ⊎ (lt b a ≡ true)
  pub asymmetric : (a b : A) → lt a b ≡ true → lt b a ≡ false
  pub transitive : (a b c : A) → lt a b ≡ true → lt b c ≡ true → lt a c ≡ true

abbrev flip : Ordering → Ordering
flip Ordering.lt = Ordering.gt
flip Ordering.eq = Ordering.eq
flip Ordering.gt = Ordering.lt

then-flip :
    (m n : ℕ) (o o' : Ordering)
    → o' ≡ flip o
    → then (compare_ℕ n m) o' ≡ flip (then (compare_ℕ m n) o)
then-flip m n o o' h = ground (arith, h)

compare_flip : (s t : String) → compare_text t s ≡ flip (compare_text s t)
compare_flip empty empty = rw compare.nil-nil refl
compare_flip empty (d prepend t) = rw (compare.nil-cons, compare.cons-nil) refl
compare_flip (c prepend s) empty = rw (compare.nil-cons, compare.cons-nil) refl
compare_flip (c prepend s) (d prepend t) =
    rw (compare.cons-cons, compare.cons-cons)
      (then-flip (code c) (code d) (compare_text s t) (compare_text t s) (compare_flip s t))

then_trans :
    (k m n : ℕ) (o o' o'' : Ordering)
    → (o ≡ Ordering.lt → o' ≡ Ordering.lt → o'' ≡ Ordering.lt)
    → then (compare_ℕ k m) o ≡ Ordering.lt
    → then (compare_ℕ m n) o' ≡ Ordering.lt
    → then (compare_ℕ k n) o'' ≡ Ordering.lt
then_trans k m n o o' o'' ih h h' = ground (arith, ih, h, h')

compare_trans :
    (s t u : String)
    → compare_text s t ≡ Ordering.lt
    → compare_text t u ≡ Ordering.lt
    → compare_text s u ≡ Ordering.lt
compare_trans empty empty u h h' = let clash = sym compare.nil-nil ∙ h in cc
compare_trans s (d prepend t) empty h h' = let clash = sym (compare.cons-nil d t) ∙ h' in cc
compare_trans (c prepend s) empty u h h' = let clash = sym (compare.cons-nil c s) ∙ h in cc
compare_trans empty (d prepend t) (e prepend u) h h' = compare.nil-cons e u
compare_trans (c prepend s) (d prepend t) (e prepend u) h h' = rw compare.cons-cons (
    then_trans (code c) (code d) (code e) (compare_text s t) (compare_text t u) (compare_text s u)
      (compare_trans s t u) (sym (compare.cons-cons c d s t) ∙ h)
      (sym (compare.cons-cons d e t u) ∙ h'))

text_lt-compare : (s t : String) → text_lt s t ≡ true → compare_text s t ≡ Ordering.lt
text_lt-compare s t h = read (compare_text s t) h
  where
    read : (o : Ordering) → (elim o [ Ordering.lt ↦ true | _ ↦ false ]) ≡ true → o ≡ Ordering.lt
    read Ordering.lt h = refl
    read Ordering.eq h = cc
    read Ordering.gt h = cc

-- The order of the bytes of texts.
pub text_lt-IsStrictOrder : IsStrictOrder text_lt
text_lt-IsStrictOrder = record {
  total = λ s t. three (compare_text s t) s t refl;
  asymmetric = λ s t h. rw (compare_flip s t, text_lt-compare s t h, text_lt) refl;
  transitive = λ s t u h h'.
      rw (compare_trans s t u (text_lt-compare s t h) (text_lt-compare t u h'), text_lt) refl;
}
  where
    three :
        (o : Ordering) (s t : String)
        → compare_text s t ≡ o
        → (text_lt s t ≡ true) ⊎ (s ≡ t) ⊎ (text_lt t s ≡ true)
    three Ordering.lt s t h = inl (rw (h, text_lt) refl)
    three Ordering.eq s t h = inr (inl (path_by_compare s t h))
    three Ordering.gt s t h = inr (inr (rw (compare_flip s t, h, text_lt) refl))
