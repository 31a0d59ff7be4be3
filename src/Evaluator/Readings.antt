-- ===== src/Evaluator/Readings.antt =====
-- The signals that count for a backend, and what the loop of `buildStates` over them adds up.
use traficctl.Prelude.{
  ◌≡◌, ◌↔◌, refl, ◌⊎◌, inl, inr, List, [], ◌∷◌, ◌++◌, some, none, true, false, arith, sym, ◌∙◌, ap,
  Bool, String,
}
use mathlib.Core.Option.{some-injective}
use mathlib.Core.Path.{subst}
use traficctl.Prelude.Tests.{Bool-cases, Option-cases}
use traficctl.Prelude.Dict.{lookup}
use traficctl.Prelude.Float.{Float}
use traficctl.Evaluator.State.{BackendState, Signal, apply_signal, apply_signals, observe}
use traficctl.Evaluator.Role.{role_by, healthy}

abbrev pub NonEmpty : List String → Type 0
NonEmpty [] = ⊥
NonEmpty (x ∷ xs) = Unit

NonEmpty-append : (xs : List String) (x : String) → NonEmpty (xs ++ (x ∷ []))
NonEmpty-append [] x = tt
NonEmpty-append (y ∷ xs) x = tt

pub healthy_empty : (h : Bool) (bs : List String) → role_by h bs ≡ healthy → ¬ NonEmpty bs
healthy_empty true [] e n = absurd n
healthy_empty true (b ∷ bs) e n = cc
healthy_empty false bs e n = cc

module _ {F : Type 0} ⦃fl : Float F⦄ where
  -- A signal counts for a name if its threshold is positive and it has a sample of that name.
  pub record Reports (name : String) (sig : Signal F) : Type 0 where
    pub live : fl.le sig.threshold fl.nought ≡ false
    pub sample : F
    pub found : lookup name sig.samples ≡ some sample

  -- It is breached if moreover the sample is more than the threshold, as a ratio above 1.
  pub record Breached (name : String) (sig : Signal F) : Type 0 where
    pub reports : Reports name sig
    pub above : fl.lt fl.one (fl.div reports.sample sig.threshold) ≡ true

  -- There is such a signal.
  abbrev pub Any : (Signal F → Type 0) → List (Signal F) → Type 0
  Any P [] = ⊥
  Any P (sig ∷ sigs) = P sig ⊎ Any P sigs

  -- The cases of one signal.
  data Seen (s : BackendState F) (sig : Signal F) : Type 0 where
    ignored : ¬ Reports s.name sig → apply_signal s sig ≡ s → Seen s sig
    fine :
        Reports s.name sig
        → ¬ Breached s.name sig
        → apply_signal s sig ≡ record s { have_sample = true }
        → Seen s sig
    bad :
        Breached s.name sig
        → (apply_signal s sig).have_sample ≡ true
        → (apply_signal s sig).breaches ≡ s.breaches ++ (sig.name ∷ [])
        → Seen s sig

  apply_signal-Seen : (s : BackendState F) (sig : Signal F) → Seen s sig
  unfolding apply_signal
  apply_signal-Seen s sig = elim (Bool-cases (fl.le sig.threshold fl.nought)) [
    | inl off ↦
        ignored (λ r. let clash : true ≡ false = sym off ∙ r.live in cc) (rw (off, apply_signal))
    | inr live ↦ elim (Option-cases (lookup s.name sig.samples)) [
      | inl e ↦
          ignored (λ r. let clash : none ≡ some r.sample = sym e ∙ r.found in cc)
            (rw (live, e, apply_signal))
      | inr (v, e) ↦ elim (Bool-cases (fl.lt fl.one (fl.div v sig.threshold))) [
        | inl over ↦
            bad (record { reports = record { live = live; sample = v; found = e }; above = over })
              (rw (live, e, apply_signal, over, observe))
              (rw (live, e, apply_signal, over, observe))
        | inr under ↦
            fine (record { live = live; sample = v; found = e })
              (λ b.
                let same : v ≡ b.reports.sample = some-injective _ _ (sym e ∙ b.reports.found) in
                let clash : true ≡ false =
                  sym b.above
                  ∙ (ap (λ u. fl.lt fl.one (fl.div u sig.threshold)) (sym same) ∙ under) in
                cc)
              (rw (live, e, apply_signal, under, observe))
      ]
    ]
  ]

  -- One signal's part in the two fields from which the role is read.
  step_sample :
      (s : BackendState F) (sig : Signal F)
      → ((apply_signal s sig).have_sample ≡ true) ↔ ((s.have_sample ≡ true) ⊎ Reports s.name sig)
  step_sample s sig = elim (apply_signal-Seen s sig) [
    | ignored out e ↦ rw e (inl, elim [ inl h ↦ h | inr r ↦ absurd (out r) ])
    | fine r _ e ↦ rw e (λ _. inr r, λ _. refl)
    | bad b e _ ↦ (λ _. inr b.reports, λ _. e)
  ]

  step_breach :
      (s : BackendState F) (sig : Signal F)
      → NonEmpty (apply_signal s sig).breaches ↔ (NonEmpty s.breaches ⊎ Breached s.name sig)
  step_breach s sig = elim (apply_signal-Seen s sig) [
    | ignored out e ↦ rw e (inl, elim [ inl h ↦ h | inr b ↦ absurd (out b.reports) ])
    | fine _ under e ↦ rw e (inl, elim [ inl h ↦ h | inr b ↦ absurd (under b) ])
    | bad b _ e ↦ rw e (λ _. inr b, λ _. NonEmpty-append s.breaches sig.name)
  ]

  signal_name : (s : BackendState F) (sig : Signal F) → (apply_signal s sig).name ≡ s.name
  unfolding apply_signal
  signal_name s sig = ground arith

  pub all_samples :
      (k : String) (s : BackendState F) (sigs : List (Signal F))
      → s.name ≡ k
      → ((apply_signals s sigs).have_sample ≡ true)
        ↔ ((s.have_sample ≡ true) ⊎ Any (Reports k) sigs)
  unfolding apply_signals
  all_samples k s [] e = (inl, elim [ inl h ↦ h | inr n ↦ absurd n ])
  all_samples k s (sig ∷ sigs) e =
      let step =
        subst
          (λ n.
            ((apply_signal s sig).have_sample ≡ true) ↔ ((s.have_sample ≡ true) ⊎ Reports n sig))
          e (step_sample s sig) in
      let ih = all_samples k (apply_signal s sig) sigs (signal_name s sig ∙ e) in
      (
        λ h. elim (ih.0 h) [
          | inl now ↦ elim (step.0 now) [ inl old ↦ inl old | inr r ↦ inr (inl r) ]
          | inr later ↦ inr (inr later)
        ],
        λ h. ih.1 (elim h [
          | inl old ↦ inl (step.1 (inl old))
          | inr (inl r) ↦ inl (step.1 (inr r))
          | inr (inr later) ↦ inr later
        ]),
      )

  pub all_breaches :
      (k : String) (s : BackendState F) (sigs : List (Signal F))
      → s.name ≡ k
      → NonEmpty (apply_signals s sigs).breaches ↔ (NonEmpty s.breaches ⊎ Any (Breached k) sigs)
  unfolding apply_signals
  all_breaches k s [] e = (inl, elim [ inl h ↦ h | inr n ↦ absurd n ])
  all_breaches k s (sig ∷ sigs) e =
      let step =
        subst (λ n. NonEmpty (apply_signal s sig).breaches ↔ (NonEmpty s.breaches ⊎ Breached n sig))
          e (step_breach s sig) in
      let ih = all_breaches k (apply_signal s sig) sigs (signal_name s sig ∙ e) in
      (
        λ h. elim (ih.0 h) [
          | inl now ↦ elim (step.0 now) [ inl old ↦ inl old | inr r ↦ inr (inl r) ]
          | inr later ↦ inr (inr later)
        ],
        λ h. ih.1 (elim h [
          | inl old ↦ inl (step.1 (inl old))
          | inr (inl r) ↦ inl (step.1 (inr r))
          | inr (inr later) ↦ inr later
        ]),
      )

  -- A state that no signal finds unhealthy has the score it began with.
  pub fold_score :
      (s : BackendState F) (sigs : List (Signal F))
      → ¬ NonEmpty (apply_signals s sigs).breaches
      → (¬ NonEmpty s.breaches) × ((apply_signals s sigs).score ≡ s.score)
  unfolding apply_signals
  fold_score s [] h = (h, refl)
  fold_score s (sig ∷ sigs) h =
      let (empty, same) = fold_score (apply_signal s sig) sigs h in
      elim (apply_signal-Seen s sig) [
        | ignored _ e ↦ (rw e at empty, same ∙ ap (λ (t : BackendState F). t.score) e)
        | fine _ _ e ↦ (rw e at empty, same ∙ ap (λ (t : BackendState F). t.score) e)
        | bad b _ e ↦ absurd (empty (rw e (NonEmpty-append s.breaches sig.name)))
      ]
