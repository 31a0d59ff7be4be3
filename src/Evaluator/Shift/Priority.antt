-- ===== src/Evaluator/Shift/Priority.antt =====
-- The loop of `Evaluate` takes from a donor only when those before it in the order can give no more.
use mathlib.Core.Path.{subst}
use mathlib.Core.Option.{some-injective}
use traficctl.Prelude.{
  ℕ, ◌≡◌, ◌≢◌, refl, sym, ◌∙◌, ap, ◌⊎◌, inl, inr, List, [], ◌∷◌, some, none, Bool, true, false,
}
use traficctl.Prelude.Int.{ℤ}
use traficctl.Prelude.Tests.{Bool-cases, Option-cases, true-ne-false}
use traficctl.Prelude.Lists.{get_elem?, modify, All, All-mono, get_elem?-modify_ne}
use traficctl.Prelude.Order.Sorted.{IsSorted}
use traficctl.Evaluator.State.{BackendState}
use traficctl.Evaluator.Shift.{
  can_give, pick, pick_donor, pick_recipient, give, take, transfer, shift_loop,
}
use traficctl.Evaluator.Shift.Rounds.{shift_loop_inv}
use traficctl.Evaluator.Shift.Total.{PointsTo, Round-facts}
use traficctl.Evaluator.Role.{role, unhealthy, healthy}
use native.Mathlib.Decide.{ℕ_discrete}

module _ {F : Type 0} where
  -- The state under a pointer does not pass.
  abbrev pub Fails : (BackendState F → Bool) → List (BackendState F) → ℕ → Type 0
  Fails test states p = (s : BackendState F) → get_elem? states p ≡ some s → test s ≡ false

  -- What is before the one picked, in a list in order, does not pass.
  pick-first :
      (less : ℕ → ℕ → Bool) (test : BackendState F → Bool) (states : List (BackendState F))
      (ps : List ℕ) (q : ℕ)
      → ((p : ℕ) → less p p ≡ false)
      → IsSorted less ps
      → pick test states ps ≡ some q
      → All (λ p. less p q ≡ true → Fails test states p) ps
  unfolding pick
  pick-first less test states [] q irr sorted e = tt
  pick-first less test states (p ∷ ps) q irr (later, sorted) e =
      elim (Option-cases (get_elem? states p)) [
        | inl gone ↦ (
          λ _ s there. let clash : none ≡ some s = sym gone ∙ there in cc,
          pick-first less test states ps q irr sorted (rw (gone, pick) at e),
        )
        | inr (s, there) ↦ elim (Bool-cases (test s)) [
          | inl ok ↦
              let same : p ≡ q = some-injective p q (rw (there, ok, pick) at e) in
              subst (λ x. All (λ r. less r x ≡ true → Fails test states r) (p ∷ ps)) same
                (
                  λ before. absurd (true-ne-false (sym before ∙ irr p)),
                  All-mono (λ r. less r p ≡ false) (λ r. less r p ≡ true → Fails test states r)
                      (λ r not_before before. absurd (true-ne-false (sym before ∙ not_before))) ps
                      later,
                )
          | inr bad ↦ (
            λ _ t there'. rw (← some-injective s t (sym there ∙ there')) bad,
            pick-first less test states ps q irr sorted (rw (there, bad, pick) at e),
          )
        ]
      ]

  transfer_elsewhere :
      (states : List (BackendState F)) (d r k : ℕ)
      → d ≢ k
      → r ≢ k
      → get_elem? (transfer d r states) k ≡ get_elem? states k
  unfolding transfer
  transfer_elsewhere states d r k not_d not_r =
      get_elem?-modify_ne r k take (modify d give states) not_r
      ∙ get_elem?-modify_ne d k give states not_d

  -- Two pointers of the list of donors, `i` before `j` in its order.
  module _ (less : ℕ → ℕ → Bool) (irr : (p : ℕ) → less p p ≡ false)
      (states₀ : List (BackendState F)) (us hs : List ℕ)
      (to_unhealthy : PointsTo unhealthy states₀ us) (to_healthy : PointsTo healthy states₀ hs)
      (sorted : IsSorted less us) (i j : ℕ) (listed : (Q : ℕ → Type 0) → All Q us → Q i)
      (donates : (k : ℕ)
        → (k ≡ i) ⊎ (k ≡ j)
        → (s : BackendState F) × (get_elem? states₀ k ≡ some s) × (role s ≡ unhealthy))
      (before : less i j ≡ true) where
    -- `j` is as it was, or `i` can give no more.
    abbrev pub Waits : List (BackendState F) → Type 0
    Waits states = (get_elem? states j ≡ get_elem? states₀ j) ⊎ Fails can_give states i

    apart : j ≢ i
    apart e = true-ne-false (sym before ∙ ap (λ k. less i k) e ∙ irr i)

    not_recipient :
        (k r : ℕ)
        → (k ≡ i) ⊎ (k ≡ j)
        → ((s : BackendState F) → get_elem? states₀ r ≡ some s → role s ≡ healthy)
        → r ≢ k
    not_recipient k r which healthy_r e =
        let (s, there, role_s) = donates k which in
        let clash : unhealthy ≡ healthy = sym role_s ∙ healthy_r s (rw e there) in cc

    still-Fails :
        (states : List (BackendState F)) (d r : ℕ)
        → d ≢ i
        → r ≢ i
        → Fails can_give states i
        → Fails can_give (transfer d r states) i
    still-Fails states d r not_d not_r fails s there =
        fails s (sym (transfer_elsewhere states d r i not_d not_r) ∙ there)

    round-Waits :
        (states : List (BackendState F)) (d r : ℕ)
        → pick_donor states us ≡ some d
        → pick_recipient states hs ≡ some r
        → Waits states
        → Waits (transfer d r states)
    unfolding pick_donor
    round-Waits states d r ed er waits =
        let f = Round-facts states₀ us hs to_unhealthy to_healthy states d r ed er in
        let not_i = not_recipient i r (inl refl) f.recipient_role in
        let not_j = not_recipient j r (inr refl) f.recipient_role in
        elim (ℕ_discrete d j) [
          | yes same ↦
              let fails =
                listed (λ p. less p d ≡ true → Fails can_give states p)
                  (pick-first less can_give states us d irr sorted ed) (rw same before) in
              inr (still-Fails states d r (λ e. apart (sym same ∙ e)) not_i fails)
          | no other ↦ elim waits [
            | inl kept ↦ inl (transfer_elsewhere states d r j other not_j ∙ kept)
            | inr fails ↦
                let not_d : d ≢ i = λ e.
                  true-ne-false
                    (sym f.donor.passes ∙ fails f.donor.found (rw (← e) f.donor.points)) in
                inr (still-Fails states d r not_d not_i fails)
          ]
        ]

    pub shift_loop-Waits : (fuel : ℕ) (n : ℤ) → Waits (shift_loop us hs fuel states₀ n).0
    shift_loop-Waits fuel n = shift_loop_inv us hs Waits round-Waits fuel states₀ n (inl refl)
