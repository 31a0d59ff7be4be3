-- ===== src/Controller/Spec/Valid.antt =====
-- `validateSpec` accepts exactly the well-formed specs.
use text.Mathlib.Text.{◌==◌}
use text.Mathlib.TextEquality.{eq_iff}
use traficctl.Prelude.{
  ℕ, ◌+◌, ◌^◌, ◌≤◌, ◌<◌, ◌≡◌, ◌≢◌, ◌↔◌, ◌⊎◌, refl, List, [], ◌∷◌, some, none, true, false, arith,
  sym, ◌∙◌, ap, ap₂, inl, inr, String,
}
use traficctl.Prelude.Tests.{Bool-cases, ltb}
use traficctl.Prelude.Int.{pos, ◌≤ℤ◌, lt_int}
use traficctl.Prelude.Lists.{All, Distinct, length}
use traficctl.Prelude.Sort.{sum_by}
use traficctl.Api.Types.{Backend, TrafficPolicySpec}
use traficctl.Api.Schema.{InSchema}
use traficctl.Controller.Spec.{
  SpecError, empty_name, duplicate_name, min_exceeds_max, Scan, bad, sums, scan, seen_before,
  check_sums, validate_spec,
}
use traficctl.Controller.Initial.Shares.{Sane, low, add32_nat}
use traficctl.Controller.Initial.Laws.{high}

-- Every name is new and not empty, and every minimum is at most its maximum.
abbrev pub Clean : List String → List Backend → Type 0
Clean seen [] = Unit
Clean seen (b ∷ bs) =
    ((b.name ≢ "") × (All (λ t. t ≢ b.name) seen × (b.min_weight ≤ℤ b.max_weight)))
    × Clean (b.name ∷ seen) bs

seen_before_iff :
    (s : String) (seen : List String) → ((seen_before s seen ≡ false) ↔ All (λ t. t ≢ s) seen)
seen_before_iff s [] = (λ _. tt, λ _. refl)
seen_before_iff s (t ∷ ts) =
    let (to, from) = seen_before_iff s ts in
    elim (Bool-cases (t == s)) [
      | inl e ↦ (
        λ h. let clash : true ≡ false = rw e at h in cc,
        λ (ne, _). absurd (ne ((eq_iff t s).0 e)),
      )
      | inr e ↦ (
        λ h. (λ q. let clash : true ≡ false = sym ((eq_iff t s).1 q) ∙ e in cc, to (rw e at h)),
        λ (_, rest). rw e (from rest),
      )
    ]

-- The scan reaches the two sums, or finds an error.
abbrev Scanned : List String → ℕ → ℕ → List Backend → Scan → Type 0
Scanned seen a c bs r =
    ((r ≡ sums (pos (a + sum_by low bs)) (pos (c + sum_by high bs))) × Clean seen bs)
    ⊎ ((e : SpecError) × (r ≡ bad e) × (¬ Clean seen bs))

scan-Scanned :
    (seen : List String) (a c : ℕ) (bs : List Backend)
    → All InSchema bs
    → a + sum_by low bs < 2 ^ 31
    → c + sum_by high bs < 2 ^ 31
    → Scanned seen a c bs (scan seen (pos a) (pos c) bs)
unfolding scan
scan-Scanned seen a c [] s h k = inl (ap₂ sums (ap pos (omega arith)) (ap pos (omega arith)), tt)
scan-Scanned seen a c (b ∷ bs) ((lo, lo', hi, hi'), ss) h k = elim (Bool-cases (b.name == "")) [
  | inl e ↦ inr (empty_name, rw (e, scan) refl, λ cl. cl.0.0 ((eq_iff b.name "").0 e))
  | inr e ↦ elim (Bool-cases (seen_before b.name seen)) [
    | inl e' ↦ inr (
      duplicate_name b.name,
      rw (e, e', scan) refl,
      λ cl. let clash : true ≡ false = sym e' ∙ (seen_before_iff b.name seen).1 cl.0.1.0 in cc,
    )
    | inr e' ↦ elim (Bool-cases (lt_int b.max_weight b.min_weight)) [
      | inl e₂ ↦ inr (
        min_exceeds_max b,
        rw (e, e', e₂, scan) refl,
        λ cl. let o = cl.0.1.1 in ground (arith, e₂, o),
      )
      | inr e₂ ↦
          let named : b.name ≢ "" =
            λ q. let clash : true ≡ false = sym ((eq_iff b.name "").1 q) ∙ e in cc in
          let new = (seen_before_iff b.name seen).0 e' in
          let rest =
            scan-Scanned (b.name ∷ seen) (a + low b) (c + high b) bs ss (omega arith)
              (omega arith) in
          rw
            (
              e,
              e',
              e₂,
              scan,
              add32_nat a b.min_weight lo (omega arith),
              add32_nat c b.max_weight hi (omega arith),
            )
            (elim rest [
              | inl (r, cl) ↦ inl (
                r ∙ ap₂ sums (ap pos (omega arith)) (ap pos (omega arith)),
                ((named, (new, ground (arith, e₂))), cl),
              )
              | inr (err, r, unclean) ↦ inr (err, r, λ cl. unclean cl.1)
            ])
    ]
  ]
]

-- What `validateSpec` means to ask of a spec.
pub record WellFormed (spec : TrafficPolicySpec) : Type 0 where
  pub enough : 2 ≤ length spec.backends
  pub clean : Clean [] spec.backends
  pub low_sum : sum_by low spec.backends ≤ 100
  pub high_sum : 100 ≤ sum_by high spec.backends

refused : {A : Type 0} {e : SpecError} → some e ≡ none → A
refused h = absurd cc

sums_accepted : (a c : ℕ) → check_sums (sums (pos a) (pos c)) ≡ none → (a ≤ 100) × (100 ≤ c)
sums_accepted a c h = ground (arith, h)

accepted_sums : (a c : ℕ) → a ≤ 100 → 100 ≤ c → check_sums (sums (pos a) (pos c)) ≡ none
accepted_sums a c h k = ground arith

-- For backends of the schema whose weights add up without wrapping: `validateSpec` accepts a spec
-- exactly if it has two backends or more, their names are not empty and differ, every minimum is at
-- most its maximum, and 100 lies between the sums of the minima and of the maxima.
pub validate_spec_iff :
    (spec : TrafficPolicySpec)
    → All InSchema spec.backends
    → sum_by low spec.backends < 2 ^ 31
    → sum_by high spec.backends < 2 ^ 31
    → (validate_spec spec ≡ none) ↔ WellFormed spec
unfolding validate_spec
validate_spec_iff spec s h k = elim (Bool-cases (ltb (length spec.backends) 2)) [
  | inl few ↦ (
    λ v. refused (rw (few, validate_spec) at v),
    λ f. let enough = f.enough in absurd (ground (arith, few, enough)),
  )
  | inr many ↦ elim (scan-Scanned [] 0 0 spec.backends s (omega arith) (omega arith)) [
    | inr (e, r, unclean) ↦
        (λ v. refused (rw (many, r, validate_spec) at v), λ f. absurd (unclean f.clean))
    | inl (r, cl) ↦ (
      λ v.
          let bounds =
            sums_accepted (0 + sum_by low spec.backends) (0 + sum_by high spec.backends)
              (rw (many, r, validate_spec) at v) in
          record {
            enough = ground (arith, many);
            clean = cl;
            low_sum = omega (arith, bounds.0);
            high_sum = omega (arith, bounds.1);
          },
      λ f.
          let low_sum = f.low_sum in
          let high_sum = f.high_sum in
          rw (many, r, validate_spec)
            (accepted_sums (0 + sum_by low spec.backends) (0 + sum_by high spec.backends)
              (omega arith) (omega arith)),
    )
  ]
]

Clean-fresh :
    (s : String) (seen : List String) (bs : List Backend)
    → ((k : String) → All (λ t. t ≢ k) seen → k ≢ s)
    → Clean seen bs
    → All (λ b. b.name ≢ s) bs
Clean-fresh s seen [] mem cl = tt
Clean-fresh s seen (b ∷ bs) mem (here, cl) =
    (mem b.name here.1.0, Clean-fresh s (b.name ∷ seen) bs (λ k (_, rest). mem k rest) cl)

pub Clean-Distinct :
    (seen : List String) (bs : List Backend) → Clean seen bs → Distinct (λ b. b.name) bs
Clean-Distinct seen [] cl = tt
Clean-Distinct seen (b ∷ bs) (here, cl) = (
  Clean-fresh b.name (b.name ∷ seen) bs (λ k (ne, _) e. ne (sym e)) cl,
  Clean-Distinct (b.name ∷ seen) bs cl,
)

pub Clean-Sane :
    (seen : List String) (bs : List Backend) → All InSchema bs → Clean seen bs → All Sane bs
Clean-Sane seen [] s cl = tt
Clean-Sane seen (b ∷ bs) (s, ss) (here, cl) =
    (record { schema = s; ordered = here.1.1 }, Clean-Sane (b.name ∷ seen) bs ss cl)
