-- ===== src/Prelude/Order/Pairs.antt =====
-- Pairs of texts, by the first and then by the second.
use text.Mathlib.Text.{◌==◌}
use text.Mathlib.TextEquality.{eq_iff}
use Prim.Native.String.{String}
use mathlib.Core.Path.{◌≡◌, sym, ◌∙◌, ap}
use mathlib.Core.Logic.{◌⊎◌, inl, inr, ◌↔◌}
use mathlib.Core.Bool.{Bool, true, false, not}
use traficctl.Prelude.Tests.{text_lt, if◌then◌else◌, Bool-cases, true-ne-false}
use traficctl.Prelude.Order.{IsStrictOrder, text_lt-IsStrictOrder}

abbrev pub pair_lt : String × String → String × String → Bool
pair_lt (a, b) (c, d) = if not (a == c) then text_lt a c else text_lt b d

-- Nothing is before itself.
pub irreflexive : {A : Type 0} {lt : A → A → Bool} → IsStrictOrder lt → (a : A) → lt a a ≡ false
irreflexive {lt = lt} o a = elim (Bool-cases (lt a a)) [ inl h ↦ o.asymmetric a a h | inr h ↦ h ]

-- What is not before and what it is not before, in a chain.
pub negatively_transitive :
    {A : Type 0} {lt : A → A → Bool}
    → IsStrictOrder lt
    → (a b c : A) → lt a b ≡ false
    → lt b c ≡ false
    → lt a c ≡ false
negatively_transitive {lt = lt} o a b c h h' = elim (Bool-cases (lt a c)) [
  | inr e ↦ e
  | inl e ↦ elim (o.total b c) [
    | inl k ↦ absurd (true-ne-false (sym k ∙ h'))
    | inr (inl k) ↦ ap (λ x. lt a x) (sym k) ∙ h
    | inr (inr k) ↦ absurd (true-ne-false (sym (o.transitive a c b e k) ∙ h))
  ]
]

pair_lt_iff :
    (a b c d : String)
    → (pair_lt (a, b) (c, d) ≡ true) ↔ ((text_lt a c ≡ true) ⊎ ((a ≡ c) × (text_lt b d ≡ true)))
pair_lt_iff a b c d = elim (Bool-cases (a == c)) [
  | inl e ↦
      let same = (eq_iff a c).0 e in
      (
        λ h. inr (same, rw e at h),
        elim [
          | inl k ↦ absurd (
              true-ne-false
                (sym k ∙ ap (λ x. text_lt a x) (sym same) ∙ irreflexive text_lt-IsStrictOrder a))
          | inr (_, k) ↦ rw e k
        ],
      )
  | inr e ↦ (
    λ h. inl (rw e at h),
    elim [
      | inl k ↦ rw e k
      | inr (same, _) ↦ absurd (true-ne-false (sym ((eq_iff a c).1 same) ∙ e))
    ],
  )
]

both_ways :
    (a b c d : String)
    → (text_lt a c ≡ true) ⊎ ((a ≡ c) × (text_lt b d ≡ true))
    → (text_lt c a ≡ true) ⊎ ((c ≡ a) × (text_lt d b ≡ true))
    → ⊥
both_ways a b c d (inl h) (inl k) = true-ne-false (sym k ∙ text_lt-IsStrictOrder.asymmetric a c h)
both_ways a b c d (inl h) (inr (e, k)) =
    true-ne-false (sym h ∙ ap (λ x. text_lt a x) e ∙ irreflexive text_lt-IsStrictOrder a)
both_ways a b c d (inr (e, h)) (inl k) =
    true-ne-false (sym k ∙ ap (λ x. text_lt c x) e ∙ irreflexive text_lt-IsStrictOrder c)
both_ways a b c d (inr (e, h)) (inr (e', k)) =
    true-ne-false (sym k ∙ text_lt-IsStrictOrder.asymmetric b d h)

chain :
    (a b c d e f : String)
    → (text_lt a c ≡ true) ⊎ ((a ≡ c) × (text_lt b d ≡ true))
    → (text_lt c e ≡ true) ⊎ ((c ≡ e) × (text_lt d f ≡ true))
    → (text_lt a e ≡ true) ⊎ ((a ≡ e) × (text_lt b f ≡ true))
chain a b c d e f (inl h) (inl k) = inl (text_lt-IsStrictOrder.transitive a c e h k)
chain a b c d e f (inl h) (inr (x, k)) = inl (ap (λ z. text_lt a z) (sym x) ∙ h)
chain a b c d e f (inr (x, h)) (inl k) = inl (ap (λ z. text_lt z e) x ∙ k)
chain a b c d e f (inr (x, h)) (inr (y, k)) =
    inr (x ∙ y, text_lt-IsStrictOrder.transitive b d f h k)

pub pair_lt-IsStrictOrder : IsStrictOrder pair_lt
pair_lt-IsStrictOrder = record {
  total = λ (a, b) (c, d). elim (text_lt-IsStrictOrder.total a c) [
    | inl h ↦ inl ((pair_lt_iff a b c d).1 (inl h))
    | inr (inr h) ↦ inr (inr ((pair_lt_iff c d a b).1 (inl h)))
    | inr (inl e) ↦ elim (text_lt-IsStrictOrder.total b d) [
      | inl h ↦ inl ((pair_lt_iff a b c d).1 (inr (e, h)))
      | inr (inr h) ↦ inr (inr ((pair_lt_iff c d a b).1 (inr (sym e, h))))
      | inr (inl e') ↦ inr (inl (λ i. (e i, e' i)))
    ]
  ];
  asymmetric = λ (a, b) (c, d) h. elim (Bool-cases (pair_lt (c, d) (a, b))) [
    | inr k ↦ k
    | inl k ↦ absurd (both_ways a b c d ((pair_lt_iff a b c d).0 h) ((pair_lt_iff c d a b).0 k))
  ];
  transitive = λ (a, b) (c, d) (e, f) h k.
      (pair_lt_iff a b e f).1
        (chain a b c d e f ((pair_lt_iff a b c d).0 h) ((pair_lt_iff c d e f).0 k));
}
