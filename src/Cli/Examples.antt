-- ===== src/Cli/Examples.antt =====
-- A list of two policies, with an insertion sort.
use mathlib.Core.List.{Mem, Perm, mem-cons, not-mem-nil}
use mathlib.Core.List.Perm
use mathlib.Core.Logic.Or
use traficctl.Prelude.{
  ◌≡◌, ◌≢◌, refl, sym, ◌∙◌, ap, List, [], ◌∷◌, none, Bool, true, false, inl, inr,
}
use traficctl.Prelude.Tests.{if◌then◌else◌, Bool-cases, true-ne-false, ne_of_test}
use traficctl.Prelude.Lists.{All, All-mono}
use traficctl.Prelude.Order.Sorted.{IsSorted}
use traficctl.Api.Types.{TrafficPolicy}
use traficctl.Cli.Tables.{Toolbox, print_list}
use traficctl.Cli.Listing.{Transitive, Sorts, Keyed, policy_set, print_list-Perm}
use traficctl.Cli.TestData.{printer}
use traficctl.Controller.TestData.{policy, two_backends}

module _ {A : Type 0} (less : A → A → Bool) where
  put_in : A → List A → List A
  put_in x [] = x ∷ []
  put_in x (y ∷ ys) = let rest = put_in x ys in if less y x then y ∷ rest else x ∷ y ∷ ys

  All-put_in : (P : A → Type 0) (x : A) (ys : List A) → P x → All P ys → All P (put_in x ys)
  unfolding put_in
  All-put_in P x [] h hs = (h, tt)
  All-put_in P x (y ∷ ys) h (k, ks) = elim (Bool-cases (less y x)) [
    | inl e ↦ rw (e, put_in) (k, All-put_in P x ys h ks)
    | inr e ↦ rw (e, put_in) (h, (k, ks))
  ]

  put_in-perm : (x : A) (ys : List A) → Perm (put_in x ys) (x ∷ ys)
  unfolding put_in
  put_in-perm x [] = Perm.rfl
  put_in-perm x (y ∷ ys) = elim (Bool-cases (less y x)) [
    | inl e ↦ rw (e, put_in) (Perm.trans (Perm.cons y (put_in-perm x ys)) (Perm.swap x y ys))
    | inr e ↦ rw (e, put_in) Perm.rfl
  ]

  put_in-IsSorted :
      Transitive less → (x : A) (ys : List A) → IsSorted less ys → IsSorted less (put_in x ys)
  unfolding put_in
  put_in-IsSorted t x [] s = (tt, tt)
  put_in-IsSorted t x (y ∷ ys) (h, s) = elim (Bool-cases (less y x)) [
    | inl e ↦
        let after : less x y ≡ false = elim (Bool-cases (less x y)) [
          | inl k ↦ absurd (true-ne-false (sym (t.before x y x k e) ∙ t.irreflexive x))
          | inr k ↦ k
        ] in
        rw (e, put_in) (All-put_in (λ z. less z y ≡ false) x ys after h, put_in-IsSorted t x ys s)
    | inr e ↦
        rw (e, put_in)
          (
            (
              e,
              All-mono (λ z. less z y ≡ false) (λ z. less z x ≡ false)
                  (λ z k. t.not_before z y x k e) ys h,
            ),
            (h, s),
          )
  ]

  insertion_sort : List A → List A
  insertion_sort [] = []
  insertion_sort (x ∷ xs) = put_in x (insertion_sort xs)

  insertion_sort-perm : (xs : List A) → Perm (insertion_sort xs) xs
  unfolding insertion_sort
  insertion_sort-perm [] = Perm.rfl
  insertion_sort-perm (x ∷ xs) =
      Perm.trans (put_in-perm x (insertion_sort xs)) (Perm.cons x (insertion_sort-perm xs))

  insertion_sort-IsSorted : Transitive less → (xs : List A) → IsSorted less (insertion_sort xs)
  unfolding insertion_sort
  insertion_sort-IsSorted t [] = tt
  insertion_sort-IsSorted t (x ∷ xs) =
      put_in-IsSorted t x (insertion_sort xs) (insertion_sort-IsSorted t xs)

abbrev tools : Toolbox
tools = record {
  sort_slice = insertion_sort;
  find_condition = λ cs kind. none;
  format_time = λ t. "";
}

tools-Sorts : Sorts tools
tools-Sorts = record {
  permuted = λ less xs t. insertion_sort-perm less xs;
  sorted = λ less xs t. insertion_sort-IsSorted less t xs;
}

abbrev web : TrafficPolicy
web = policy two_backends false

abbrev api : TrafficPolicy
api = record web { name = "api" }

one_of :
    {P : Type 0} (a : TrafficPolicy)
    → IsProp P
    → Mem a (web ∷ api ∷ [])
    → (a ≡ web → P)
    → (a ≡ api → P)
    → P
one_of a prop m f g =
    Or.elim prop (mem-cons.0 m) f λ m'. Or.elim prop (mem-cons.0 m') g λ n. absurd (not-mem-nil n)

different : web.name ≢ api.name
different = ne_of_test "web" "api" refl

two-Keyed : Keyed (web ∷ api ∷ [])
two-Keyed a b m m' ns name =
    let prop = policy_set a b in
    one_of a prop m
      (λ e.
        one_of b prop m' (λ k. e ∙ sym k)
          (λ k. absurd (different (sym (ap (λ p. p.name) e) ∙ name ∙ ap (λ p. p.name) k))))
      (λ e.
        one_of b prop m'
          (λ k. absurd (different (sym (ap (λ p. p.name) k) ∙ sym name ∙ ap (λ p. p.name) e)))
          (λ k. e ∙ sym k))

print_list-Perm_example :
    print_list tools printer true (web ∷ api ∷ []) []
    ≡ print_list tools printer true (api ∷ web ∷ []) []
print_list-Perm_example =
    print_list-Perm tools printer tools-Sorts true (web ∷ api ∷ []) (api ∷ web ∷ []) two-Keyed
      (Perm.swap api web []) []
