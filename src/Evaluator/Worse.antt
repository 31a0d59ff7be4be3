-- ===== src/Evaluator/Worse.antt =====
-- The order of the donors: worst first, and by name among equals.
use traficctl.Prelude.{ℕ, ◌≡◌, ◌↔◌, refl, sym, ◌∙◌, ◌⊎◌, inl, inr, List, some, Bool, true, false}
use traficctl.Prelude.Tests.{Bool-cases, Option-cases, true-ne-false, text_lt}
use traficctl.Prelude.Lists.{get_elem?}
use traficctl.Prelude.Float.{Float}
use traficctl.Prelude.Order.{text_lt-IsStrictOrder}
use traficctl.Prelude.Order.Pairs.{negatively_transitive}
use traficctl.Prelude.Order.Sorting.{IsWeakOrder}
use traficctl.Evaluator.{worse, through}
use traficctl.Evaluator.State.{BackendState}

-- Facts of IEEE 754 comparisons among the numbers `N`, which are not NaN.
pub record OrdersNumbers {F : Type 0} ⦃fl : Float F⦄ (N : F → Type 0) : Type 0 where
  pub lt_asymmetric : (x y : F) → N x → N y → fl.lt x y ≡ true → fl.lt y x ≡ false
  pub lt_chain :
      (x y z : F) → N x → N y → N z → fl.lt x y ≡ false → fl.lt y z ≡ false → fl.lt x z ≡ false
  pub eq_iff :
      (x y : F) → N x → N y → (fl.eq x y ≡ true) ↔ ((fl.lt x y ≡ false) × (fl.lt y x ≡ false))

absurd_bool : {A : Type 0} → {b : Bool} → b ≡ true → b ≡ false → A
absurd_bool h k = absurd (true-ne-false (sym h ∙ k))

refuted : (b : Bool) → ¬ (b ≡ true) → b ≡ false
refuted b h = elim (Bool-cases b) [ inl e ↦ absurd (h e) | inr e ↦ e ]

module _ {F : Type 0} ⦃fl : Float F⦄ (N : F → Type 0) (law : OrdersNumbers N) where
  abbrev Tied : BackendState F → BackendState F → Type 0
  Tied a b = (fl.lt a.score b.score ≡ false) × (fl.lt b.score a.score ≡ false)

  worse_iff :
      (a b : BackendState F)
      → N a.score
      → N b.score
      → (worse a b ≡ true)
        ↔ ((fl.lt b.score a.score ≡ true) ⊎ (Tied a b × (text_lt a.name b.name ≡ true)))
  unfolding worse
  worse_iff a b na nb = elim (Bool-cases (fl.eq a.score b.score)) [
    | inl e ↦
        let tied = (law.eq_iff a.score b.score na nb).0 e in
        rw e (λ h. inr (tied, h), elim [ inl h ↦ absurd_bool h tied.1 | inr (_, h) ↦ h ])
    | inr e ↦ rw e (
      λ h. inl h,
      elim [
        | inl h ↦ h
        | inr (tied, _) ↦ absurd_bool ((law.eq_iff a.score b.score na nb).1 tied) e
      ],
    )
  ]

  worse_asymmetric :
      (a b : BackendState F) → N a.score → N b.score → worse a b ≡ true → worse b a ≡ false
  worse_asymmetric a b na nb h = refuted (worse b a) λ k. elim ((worse_iff a b na nb).0 h) [
    | inl above ↦ elim ((worse_iff b a nb na).0 k) [
      | inl below ↦ absurd_bool below (law.lt_asymmetric b.score a.score nb na above)
      | inr (tied, _) ↦ absurd_bool above tied.0
    ]
    | inr (tied, first) ↦ elim ((worse_iff b a nb na).0 k) [
      | inl below ↦ absurd_bool below tied.0
      | inr (_, second) ↦ absurd_bool second (text_lt-IsStrictOrder.asymmetric a.name b.name first)
    ]
  ]

  -- What is not worse has not the higher score, and among equals not the lesser name.
  not_worse :
      (a b : BackendState F)
      → N a.score
      → N b.score
      → worse a b ≡ false
      → (fl.lt b.score a.score ≡ false) × (Tied a b → text_lt a.name b.name ≡ false)
  not_worse a b na nb h = (
    refuted _ λ k. true-ne-false (sym ((worse_iff a b na nb).1 (inl k)) ∙ h),
    λ tied. refuted _ λ k. true-ne-false (sym ((worse_iff a b na nb).1 (inr (tied, k))) ∙ h),
  )

  worse_chain :
      (a b c : BackendState F)
      → N a.score
      → N b.score
      → N c.score
      → worse a b ≡ false
      → worse b c ≡ false
      → worse a c ≡ false
  worse_chain a b c na nb nc h h' =
      let (ba, name_ab) = not_worse a b na nb h in
      let (cb, name_bc) = not_worse b c nb nc h' in
      refuted (worse a c) λ k. elim ((worse_iff a c na nc).0 k) [
        | inl above ↦
            true-ne-false (sym above ∙ law.lt_chain c.score b.score a.score nc nb na cb ba)
        | inr ((ac, ca), named) ↦
            let ab = law.lt_chain a.score c.score b.score na nc nb ac cb in
            let bc = law.lt_chain b.score a.score c.score nb na nc ba ac in
            true-ne-false (
              sym named
              ∙ negatively_transitive text_lt-IsStrictOrder a.name b.name c.name (name_ab (ab, ba))
                  (name_bc (bc, cb)))
      ]

  module _ (states : List (BackendState F)) where
    -- A pointer to a state whose score is a number.
    abbrev pub Scored : ℕ → Type 0
    Scored p = (s : BackendState F) × (get_elem? states p ≡ some s) × N s.score

    through_found :
        (p q : ℕ) (a b : BackendState F)
        → get_elem? states p ≡ some a
        → get_elem? states q ≡ some b
        → through worse states p q ≡ worse a b
    unfolding through
    through_found p q a b e e' = rw (e, e', through) refl

    pub donors_weak : IsWeakOrder Scored (through worse states)
    donors_weak = record {
      asymmetric = λ p q (a, e, na) (b, e', nb) h.
          through_found q p b a e' e
          ∙ worse_asymmetric a b na nb (sym (through_found p q a b e e') ∙ h);
      negatively_transitive = λ p q r (a, ea, na) (b, eb, nb) (c, ec, nc) h h'.
          through_found p r a c ea ec
          ∙ worse_chain a b c na nb nc (sym (through_found p q a b ea eb) ∙ h)
              (sym (through_found q r b c eb ec) ∙ h');
    }

    pub donors_irreflexive :
        ((p : ℕ) (s : BackendState F) → get_elem? states p ≡ some s → N s.score)
        → (p : ℕ) → through worse states p p ≡ false
    unfolding through
    donors_irreflexive numbers p = elim (Option-cases (get_elem? states p)) [
      | inl e ↦ rw (e, through) refl
      | inr (s, e) ↦
          through_found p p s s e e
          ∙ refuted (worse s s)
              λ h. let n = numbers p s e in true-ne-false (sym h ∙ worse_asymmetric s s n n h)
    ]
