-- ===== src/System/Spacing.antt =====
-- How often the reconciler of cmd/main.go changes the weights of a policy.
use text.Mathlib.Text.{◌==◌}
use text.Mathlib.TextPositions.{eq_refl}
use traficctl.Prelude.{
  ℕ, ◌+◌, ◌*◌, ◌/◌, ◌≤◌, ◌≡◌, ap, refl, sym, ◌∙◌, inl, inr, ◌⊎◌, List, [], ◌∷◌, some, Bool, true,
  false, String, ◌&&◌, arith,
}
use traficctl.Prelude.Tests.{if◌then◌else◌, Bool-cases}
use traficctl.Prelude.Int.{ℤ, pos, eq_int, le_int, pos_part}
use traficctl.Prelude.Float.{Float}
use traficctl.Prelude.Lists.{All}
use traficctl.Api.Types.{TrafficPolicy, BackendWeight, Strategy}
use traficctl.Router.{Fetched, found, absent, failed}
use traficctl.Cli.{PolicyClient}
use traficctl.Controller.Env.{World, Readings}
use traficctl.Controller.Strategy.{cooldown_elapsed, strategy_cooldown, second}
use traficctl.Controller.Sampling.Governed.{Governed, governed}
use traficctl.Controller.Reconcile.{reconcile, reconcile_policy}
use traficctl.Controller.Reconcile.Safety.{Paced, Written, reconcile_policy-Safe}
use traficctl.Manager.{Flags}
use traficctl.Manager.Wiring.{Kit, reconciler}
use traficctl.System.Server.{Server, own_key, with_status, Replaced, serialised, whole_second}
use traficctl.System.Stored.{Written-Replaced}

abbrev pub same_weights : List BackendWeight → List BackendWeight → Bool
same_weights [] [] = true
same_weights [] (w ∷ ws) = false
same_weights (v ∷ vs) [] = false
same_weights (v ∷ vs) (w ∷ ws) =
    (v.name == w.name) && eq_int v.weight w.weight && same_weights vs ws

eq_int_refl : (z : ℤ) → eq_int z z ≡ true
eq_int_refl z = ground arith

pub same_weights_refl : (ws : List BackendWeight) → same_weights ws ws ≡ true
same_weights_refl [] = refl
same_weights_refl (w ∷ ws) = rw (eq_refl w.name, eq_int_refl w.weight, same_weights_refl ws) refl

abbrev pub stored_weights : Fetched TrafficPolicy → List BackendWeight
stored_weights absent = []
stored_weights (failed e) = []
stored_weights (found p) = p.status.weights

-- One if the weights that are read have changed.
abbrev pub shift_count : (before after : Fetched TrafficPolicy) → ℕ
shift_count a b = if same_weights (stored_weights a) (stored_weights b) then 0 else 1

module _ {W F X H B : Type 0} ⦃fl : Float F⦄ (kit : Kit W F X H B) (f : Flags)
    (ns name key : String) where
  -- How many of the calls, one at each of the readings, are followed by a read of other weights.
  abbrev pub weight_shifts : List Readings → World W F → ℕ
  weight_shifts [] w = 0
  weight_shifts (t ∷ ts) w =
      let w' = (reconcile (reconciler kit f) t ns name key w).0 in
      shift_count (kit.get_policy w.cluster ns name) (kit.get_policy w'.cluster ns name)
      + weight_shifts ts w'

  -- The weights that are read stay, with the time of their last change, or the cooldown has elapsed.
  abbrev PacedRead : Readings → (p q : TrafficPolicy) → Type 0
  PacedRead t p q =
      ((q.status.weights ≡ p.status.weights)
        × ((q.status.last_weight_change_time ≡ p.status.last_weight_change_time)
            ⊎ (q.status.last_weight_change_time ≡ serialised p.status.last_weight_change_time)))
      ⊎ ((q.status.last_weight_change_time ≡ some (whole_second t.at_shift))
          × (cooldown_elapsed t.at_check p.status.last_weight_change_time p.spec.strategy ≡ true))

  Paced-read :
      (t : Readings) (p d : TrafficPolicy)
      → Paced (reconciler kit f) t p d
      → PacedRead t p (with_status d.status p)
  Paced-read t p d (inl (same, kept)) = inl (same, inr (ap serialised kept))
  Paced-read t p d (inr (moved, elapsed)) = inr (ap serialised moved, elapsed)

  -- A condition on the calls, not a promise of a client: the manager's client reads from a cache, and
  -- each of the calls ends with the cache up to date, so that a read then gives the status that the
  -- call has patched, or what it gave before if the patch was not stored.
  abbrev pub CaughtUp : List Readings → World W F → Type 0
  CaughtUp [] w = Unit
  CaughtUp (t ∷ ts) w =
      let w' = (reconcile (reconciler kit f) t ns name key w).0 in
      ((p d : TrafficPolicy)
        → kit.get_policy w.cluster ns name ≡ found p
        → Written (reconciler kit f) p d w.cluster w'.cluster
        → Replaced p (with_status d.status p) (kit.get_policy w.cluster ns name)
            (kit.get_policy w'.cluster ns name))
      × CaughtUp ts w'

  -- Without a cache, reads see every write at once.
  pub Server-CaughtUp :
      (cli : PolicyClient W) → Server kit cli → (ts : List Readings) (w : World W F) → CaughtUp ts w
  Server-CaughtUp cli server [] w = tt
  Server-CaughtUp cli server (t ∷ ts) w = (
    λ p d stored written.
        Written-Replaced kit cli f server w.cluster _ d p ns name
          (own_key kit cli server w.cluster ns name p stored) written,
    Server-CaughtUp cli server ts _,
  )

  -- What is read after a call.
  record Next (t : Readings) (p : TrafficPolicy) (after : Fetched TrafficPolicy) : Type 0 where
    q : TrafficPolicy
    stored : after ≡ found q
    governed : Governed q
    strategy : q.spec.strategy ≡ p.spec.strategy
    paced : PacedRead t p q

  reconcile-Next :
      (t : Readings) (ts : List Readings) (w : World W F) (p : TrafficPolicy)
      → CaughtUp (t ∷ ts) w
      → kit.get_policy w.cluster ns name ≡ found p
      → Governed p
      → Next t p (kit.get_policy (reconcile (reconciler kit f) t ns name key w).0.cluster ns name)
  unfolding reconcile
  reconcile-Next t ts w p (shown, _) stored g =
      let env = reconciler kit f in
      let s = reconcile_policy-Safe env t p w refl g in
      let call : reconcile env t ns name key w ≡ reconcile_policy env t p w =
        rw (stored, reconcile) refl in
      elim (shown p s.d stored (rw call s.written)) [
        | inl e ↦ record {
          q = p;
          stored = e ∙ stored;
          governed = g;
          strategy = refl;
          paced = inl (refl, inl refl);
        }
        | inr (_, e) ↦ record {
          q = with_status s.d.status p;
          stored = e;
          governed =
              governed env s.d (with_status s.d.status p) s.governed
                (record {
                  namespace = sym s.object.namespace;
                  name = sym s.object.name;
                  generation = sym s.object.generation;
                  spec = sym s.object.spec;
                })
                s.governed.weights;
          strategy = refl;
          paced = Paced-read t p s.d s.paced;
        }
      ]

  cooldown_elapsed-le :
      (now last : ℕ) (s : Strategy)
      → cooldown_elapsed now (some last) s ≡ true
      → last + strategy_cooldown s ≤ now
  unfolding cooldown_elapsed strategy_cooldown
  cooldown_elapsed-le now last s h = ground (arith, h)

  -- A cooldown is a number of seconds.
  cooldown_seconds : (s : Strategy) → (m : ℕ) × (strategy_cooldown s ≡ m * second)
  unfolding strategy_cooldown
  cooldown_seconds s = elim (Bool-cases (le_int s.cooldown_seconds (pos 0))) [
    | inl e ↦ (30, rw e refl)
    | inr e ↦ (pos_part s.cooldown_seconds, rw e refl)
  ]

  whole_second-le :
      (k m t : ℕ) → k * second + m * second ≤ t → k * second + m * second ≤ whole_second t
  whole_second-le k m t h = omega (arith, h)

  add_step :
      (c n d last last' horizon : ℕ)
      → last + c * d ≤ last'
      → last' + n * d ≤ horizon
      → last + (c + n) * d ≤ horizon
  add_step c n d last last' horizon h k = grind (arith, h, k)

  -- What one call costs: a change of the weights moves the time of the last change by a cooldown.
  call_cost :
      (t : Readings) (p q : TrafficPolicy) (before after : Fetched TrafficPolicy) (k horizon : ℕ)
      → before ≡ found p
      → after ≡ found q
      → p.status.last_weight_change_time ≡ some (k * second)
      → k * second ≤ horizon
      → (t.at_check ≤ t.at_shift) × (t.at_shift ≤ horizon)
      → PacedRead t p q
      → (k' : ℕ) × (q.status.last_weight_change_time ≡ some (k' * second))
        × (k * second + shift_count before after * strategy_cooldown p.spec.strategy ≤ k' * second)
        × (k' * second ≤ horizon)
  call_cost t p q before after k horizon hb ha hl fits order (inl (same, kept)) =
      let none_counted : shift_count before after ≡ 0 =
        rw (hb, ha, same, same_weights_refl p.status.weights) refl in
      let time : serialised p.status.last_weight_change_time ≡ some (k * second) =
        ap serialised hl ∙ ap some (whole k) in
      (k, elim kept [ inl e ↦ e ∙ hl | inr e ↦ e ∙ time ], rw none_counted (omega arith), fits)
    where
      whole : (k : ℕ) → whole_second (k * second) ≡ k * second
      whole k = omega arith
  call_cost t p q before after k horizon hb ha hl fits (order, soon) (inr (moved, elapsed)) =
      let spaced = cooldown_elapsed-le t.at_check (k * second) p.spec.strategy (rw hl at elapsed) in
      let (m, cooldown) = cooldown_seconds p.spec.strategy in
      let passed : k * second + m * second ≤ t.at_shift =
        omega (arith, rw cooldown at spaced, order) in
      let kept = whole_second-le k m t.at_shift passed in
      (
        t.at_shift / second,
        moved,
        rw cooldown (
            once (same_weights (stored_weights before) (stored_weights after)) k m
              (whole_second t.at_shift) kept),
        no_later t.at_shift horizon soon,
      )
    where
      once :
          (b : Bool) (k m x : ℕ)
          → k * second + m * second ≤ x
          → k * second + (if b then 0 else 1) * (m * second) ≤ x
      once true k m x h = omega (arith, h)
      once false k m x h = omega (arith, h)

      no_later : (x y : ℕ) → x ≤ y → whole_second x ≤ y
      no_later x y h = omega (arith, h)

  -- For a governed policy that is read with weights last changed `k` seconds after the epoch, no
  -- later than `horizon`, and any calls of the reconciler for it whose clock does not go back within
  -- a call nor pass `horizon`, and each of which ends with the cache of the client up to date: the
  -- number of calls that change the weights that are read, times the cooldown, is at most `horizon`
  -- less the time of that last change, although times are stored in whole seconds.
  pub weight_shifts_bounded :
      (ts : List Readings) (w : World W F) (p : TrafficPolicy) (k horizon : ℕ)
      → CaughtUp ts w
      → kit.get_policy w.cluster ns name ≡ found p
      → Governed p
      → p.status.last_weight_change_time ≡ some (k * second)
      → k * second ≤ horizon
      → All (λ t. (t.at_check ≤ t.at_shift) × (t.at_shift ≤ horizon)) ts
      → k * second + weight_shifts ts w * strategy_cooldown p.spec.strategy ≤ horizon
  weight_shifts_bounded [] w p k horizon caught stored g hl fits order = omega (arith, fits)
  weight_shifts_bounded (t ∷ ts) w p k horizon caught stored g hl fits (order, orders) =
      let w' = (reconcile (reconciler kit f) t ns name key w).0 in
      let n = reconcile-Next t ts w p caught stored g in
      let (k', changed, cost, fits') =
        call_cost t p n.q _ _ k horizon stored n.stored hl fits order n.paced in
      let rest =
        weight_shifts_bounded ts w' n.q k' horizon caught.1 n.stored n.governed changed fits'
          orders in
      add_step (shift_count (kit.get_policy w.cluster ns name) (kit.get_policy w'.cluster ns name))
        (weight_shifts ts w') (strategy_cooldown p.spec.strategy) (k * second) (k' * second) horizon
        cost (rw n.strategy at rest)
