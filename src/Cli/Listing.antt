-- ===== src/Cli/Listing.antt =====
-- internal/cli/cli.go: the table of `runList` does not depend on the order of the answer.
use mathlib.Core.List.{Mem, Perm}
use mathlib.Core.List.Perm
use traficctl.Prelude.{◌≡◌, refl, sym, ◌∙◌, ap, List, Bool, true, false, String, inl, inr}
use text.Mathlib.TextEquality.{IsScalar-prop}
use traficctl.Prelude.Tests.{true-ne-false}
use traficctl.Prelude.Order.Pairs.{pair_lt-IsStrictOrder, irreflexive, negatively_transitive}
use traficctl.Prelude.Order.Sorted.{IsSorted, IsSorted-unique}
use traficctl.Api.Types.{TrafficPolicy}
use traficctl.Cli.Tables.{Toolbox, listed_before, print_list}
use traficctl.Cli.Writes.{Output}

-- What the documentation of `sort.Slice` asks of its function and promises then.
pub record Transitive {A : Type 0} (less : A → A → Bool) : Type 0 where
  pub irreflexive : (a : A) → less a a ≡ false
  pub before : (a b c : A) → less a b ≡ true → less b c ≡ true → less a c ≡ true
  pub not_before : (a b c : A) → less a b ≡ false → less b c ≡ false → less a c ≡ false

pub record Sorts (tools : Toolbox) : Type 0 where
  pub permuted :
      (less : TrafficPolicy → TrafficPolicy → Bool) (xs : List TrafficPolicy)
      → Transitive less
      → Perm (tools.sort_slice less xs) xs
  pub sorted :
      (less : TrafficPolicy → TrafficPolicy → Bool) (xs : List TrafficPolicy)
      → Transitive less
      → IsSorted less (tools.sort_slice less xs)

-- An object is determined by its key.
abbrev pub Keyed : List TrafficPolicy → Type 0
Keyed items =
    (a b : TrafficPolicy)
    → Mem a items
    → Mem b items
    → a.namespace ≡ b.namespace
    → a.name ≡ b.name
    → a ≡ b

key_of : TrafficPolicy → String × String
key_of p = (p.namespace, p.name)

listed_before-Transitive : Transitive listed_before
unfolding listed_before key_of
listed_before-Transitive = record {
  irreflexive = λ a. irreflexive pair_lt-IsStrictOrder (key_of a);
  before = λ a b c. pair_lt-IsStrictOrder.transitive (key_of a) (key_of b) (key_of c);
  not_before =
      λ a b c. negatively_transitive pair_lt-IsStrictOrder (key_of a) (key_of b) (key_of c);
}

pub policy_set : IsSet TrafficPolicy
policy_set = hlevel (IsScalar-prop)

same_key :
    (a b : TrafficPolicy)
    → listed_before a b ≡ false
    → listed_before b a ≡ false
    → (a.namespace ≡ b.namespace) × (a.name ≡ b.name)
unfolding listed_before
same_key a b h k = elim (pair_lt-IsStrictOrder.total (a.namespace, a.name) (b.namespace, b.name)) [
  | inl e ↦ absurd (true-ne-false (sym e ∙ h))
  | inr (inr e) ↦ absurd (true-ne-false (sym e ∙ k))
  | inr (inl e) ↦ (ap (λ p. p.0) e, ap (λ p. p.1) e)
]

module _ {O : Type 0} (tools : Toolbox) (out : Output O) where
  -- If `sort.Slice` sorts, and no two of the policies share a namespace and a name: the table is the
  -- same whatever the order in which the policies come.
  pub print_list-Perm :
      Sorts tools
      → (all_ns : Bool) (items items' : List TrafficPolicy) → Keyed items
      → Perm items items'
      → (o : O) → print_list tools out all_ns items o ≡ print_list tools out all_ns items' o
  unfolding print_list
  print_list-Perm s all_ns items items' keyed p o =
      let t = listed_before-Transitive in
      let q = s.permuted listed_before items t in
      let q' = s.permuted listed_before items' t in
      let same =
        IsSorted-unique listed_before policy_set (tools.sort_slice listed_before items)
          (tools.sort_slice listed_before items')
          (λ a b m m' h k.
            let (ns, name) = same_key a b h k in
            keyed a b (Perm.subset q a m) (Perm.subset q b m') ns name)
          (Perm.trans q (Perm.trans p (Perm.symm q'))) (s.sorted listed_before items t)
          (s.sorted listed_before items' t) in
      rw same refl
