-- ===== src/System/Frozen.antt =====
-- `trafficctl freeze` of internal/cli, and then calls of the reconciler of cmd/main.go.
use traficctl.Prelude.{◌≡◌, refl, ◌∙◌, ap, inl, inr, List, [], ◌∷◌, none, true, String}
use traficctl.Prelude.Tests.{Bool-cases}
use traficctl.Prelude.Results.{ok}
use traficctl.Prelude.Float.{Float}
use traficctl.Api.Types.{TrafficPolicy, TrafficPolicySpec, BackendWeight}
use traficctl.Router.{found}
use traficctl.Cli.{PolicyClient, with_paused, toggle_paused}
use traficctl.Cli.Writes.{Output}
use traficctl.Cli.Laws.{Keeps, regenerated, toggle_paused-get}
use traficctl.Controller.Env.{World, Readings, patch_status_if_changed}
use traficctl.Controller.Reconcile.{reconcile, reconcile_policy}
use traficctl.Controller.Reconcile.Branches.{Halted, branch_of, halted_call}
use traficctl.Manager.{Flags}
use traficctl.Manager.Wiring.{Kit, reconciler}
use traficctl.System.Spacing.{CaughtUp}
use traficctl.System.Steps.{in_cluster}
use traficctl.System.Quiet.{Still, Replaced-Still}

module _ {W F X H B : Type 0} (kit : Kit W F X H B) where
  -- The only writes that lead from one cluster to another are patches of a status with these weights.
  pub data StatusWrites (ws : List BackendWeight) : W → W → Type 0 where
    unwritten : (c : W) → StatusWrites ws c c
    status_write :
        (c c' : W) (d p : TrafficPolicy)
        → d.status.weights ≡ ws
        → StatusWrites ws (kit.patch_status c d p).0 c'
        → StatusWrites ws c c'

  writes_trans :
      (ws : List BackendWeight) (a b c : W)
      → StatusWrites ws a b
      → StatusWrites ws b c
      → StatusWrites ws a c
  writes_trans ws a b c (unwritten _) k = k
  writes_trans ws a b c (status_write _ _ d p same rest) k =
      status_write a c d p same (writes_trans ws _ b c rest k)

  -- The calls write no route and no weights but those of `p`, which are still read.
  abbrev pub Parked : (ns name : String) → TrafficPolicy → W → W → Type 0
  Parked ns name p c c' = Still p (kit.get_policy c' ns name) × StatusWrites p.status.weights c c'

module _ {W F X H B : Type 0} ⦃fl : Float F⦄ (kit : Kit W F X H B) (f : Flags) where
  -- Calls for one policy, one after the other.
  abbrev pub calls : (ns name key : String) → List Readings → World W F → World W F
  calls ns name key [] w = w
  calls ns name key (t ∷ ts) w =
      calls ns name key ts (reconcile (reconciler kit f) t ns name key w).0

module _ {W F X H B : Type 0} ⦃fl : Float F⦄ (kit : Kit W F X H B) (f : Flags) where
  status_patch :
      (c : W) (d p : TrafficPolicy) (ws : List BackendWeight)
      → d.status.weights ≡ ws
      → StatusWrites kit ws c (patch_status_if_changed (reconciler kit f) c d p).0
  unfolding patch_status_if_changed
  status_patch c d p ws same = elim (Bool-cases (kit.same_status p.status d.status)) [
    | inl e ↦ rw e (unwritten c)
    | inr e ↦ rw e (status_write c _ d p same (unwritten _))
  ]

  calls-Parked :
      (ts : List Readings) (ns name key : String) (w : World W F) (p : TrafficPolicy)
      → CaughtUp kit f ns name key ts w
      → kit.get_policy w.cluster ns name ≡ found p
      → p.spec.paused ≡ true
      → Parked kit ns name p w.cluster (calls kit f ns name key ts w).cluster
  unfolding reconcile
  calls-Parked [] ns name key w p caught stored paused =
      (record { q = p; stored = stored; spec = refl; weights = refl }, unwritten w.cluster)
  calls-Parked (t ∷ ts) ns name key w p (shown, caught) stored paused =
      let env = reconciler kit f in
      let halted : Halted p = elim (branch_of p) [
        | inl h ↦ h
        | inr (valid, active) ↦ inr (valid, paused)
      ] in
      let k = halted_call env t p w halted in
      let w' = (reconcile env t ns name key w).0 in
      let call : reconcile env t ns name key w ≡ reconcile_policy env t p w =
        rw (stored, reconcile) refl in
      let written : w'.cluster ≡ (patch_status_if_changed env w.cluster k.d p).0 =
        rw call k.cluster in
      let s = Replaced-Still p k.d _ _ stored k.holds.weights (shown p k.d stored (inl written)) in
      let (s', writes) =
        calls-Parked ts ns name key w' s.q caught s.stored
          (ap (λ (x : TrafficPolicySpec). x.paused) s.spec ∙ paused) in
      (
        record {
          q = s'.q;
          stored = s'.stored;
          spec = s'.spec ∙ s.spec;
          weights = s'.weights ∙ s.weights;
        },
        writes_trans kit p.status.weights w.cluster w'.cluster _
            (rw written (status_patch w.cluster k.d p p.status.weights k.holds.weights))
            (rw s.weights at writes),
      )

  -- Given a client of the tool that keeps what `Keeps` promises: if `freeze` reports no error for a
  -- stored policy, and the cache of the manager's client has seen what it has stored, then any number
  -- of calls of the reconciler for the policy, each of which ends with the cache up to date, in
  -- whatever world has that cluster and whatever the spec says otherwise, write nothing but statuses
  -- with the weights that the policy had: it stays frozen, and no route is written.
  pub freeze-Parked :
      {O : Type 0} (cli : PolicyClient W) (out : Output O)
      → Keeps cli out
      → (ts : List Readings) (ns name key : String) (o : O) (w : World W F) (p : TrafficPolicy)
      → cli.get w.cluster ns name ≡ ok p
      → (toggle_paused cli out w.cluster ns name true o).1.1 ≡ none
      → ((q : TrafficPolicy)
          → cli.get (toggle_paused cli out w.cluster ns name true o).0 ns name ≡ ok q
          → kit.get_policy (toggle_paused cli out w.cluster ns name true o).0 ns name ≡ found q)
      → CaughtUp kit f ns name key ts
          (in_cluster (toggle_paused cli out w.cluster ns name true o).0 w)
      → (let c = (toggle_paused cli out w.cluster ns name true o).0 in
          Parked kit ns name
            (with_paused true p)
            c
            (calls kit f ns name key ts (in_cluster c w)).cluster)
  freeze-Parked cli out keeps ts ns name key o w p there quiet seen caught =
      let c = (toggle_paused cli out w.cluster ns name true o).0 in
      let (g, kept) = toggle_paused-get cli out keeps w.cluster ns name true o p there quiet in
      let p' = regenerated g (with_paused true p) in
      let (s, writes) =
        calls-Parked ts ns name key (in_cluster c w) p' caught (seen p' kept) refl in
      (record { q = s.q; stored = s.stored; spec = s.spec; weights = s.weights }, writes)
