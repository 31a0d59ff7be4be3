-- ===== src/System/Small/Merging.antt =====
-- The small cluster with a server that merges a patch into what is stored by then.
use mathlib.Core.Path.{subst}
use traficctl.Prelude.{◌≡◌, refl, sym, ap, inl, inr, ◌⊎◌, String}
use traficctl.Prelude.Tests.{Bool-cases}
use traficctl.Prelude.Int.{ℤ, pos, ◌+ℤ◌}
use traficctl.Api.Types.{TrafficPolicy}
use traficctl.Router.{Fetched, found}
use traficctl.Metrics.Prometheus.{Net, QueryResponse}
use traficctl.Cli.{PolicyClient, with_paused}
use traficctl.Cli.Laws.{regenerated}
use traficctl.Manager.Wiring.{Kit}
use traficctl.System.Server.{Server, with_status, Replaced}
use traficctl.System.Interleaved.{Merges}
use traficctl.System.Small.{
  Store, small_kit, small_cli, small_Server, read_policy, write_if, stored_under, write-Replaced,
  read_policy-found, same_key, accepted, write_if-route,
}

abbrev pub merging_kit : Net Store ℤ Unit QueryResponse → Kit Store ℤ Unit Unit QueryResponse
merging_kit net = record (small_kit net) {
  patch_status = λ w d p.
      write_if (stored_under w.policy p.namespace p.name) (with_status d.status w.policy) w;
}

abbrev pub merging_cli : PolicyClient Store
merging_cli = record small_cli {
  patch = λ w changed p.
      write_if (stored_under w.policy p.namespace p.name)
        (regenerated (w.policy.generation +ℤ pos 1) (with_paused changed.spec.paused w.policy)) w;
}

-- What is read after a write of `q` under the key of `p`.
abbrev written : Store → TrafficPolicy → TrafficPolicy → String → String → Fetched TrafficPolicy
written w p q ns name =
    read_policy (write_if (stored_under w.policy p.namespace p.name) q w).0 ns name

module _ (net : Net Store ℤ Unit QueryResponse) where
  -- A write of the stored policy under the key of `p`, by a function that keeps the key.
  merged :
      (w : Store) (p q : TrafficPolicy) (ns name : String)
      → (q.namespace ≡ w.policy.namespace) × (q.name ≡ w.policy.name)
      → (written w p q ns name ≡ read_policy w ns name)
        ⊎ ((read_policy w ns name ≡ found w.policy)
            × (read_policy w p.namespace p.name ≡ found w.policy)
            × (written w p q ns name ≡ found q))
  merged w p q ns name key = elim (Bool-cases (stored_under w.policy p.namespace p.name)) [
    | inr e ↦ inl (rw e refl)
    | inl own ↦
        let moved = same_key net w.policy q ns name key in
        elim (Bool-cases (stored_under w.policy ns name)) [
          | inl e ↦ inr (rw e refl, rw own refl, rw (own, moved, e) refl)
          | inr e ↦ inl (rw (own, moved, e) refl)
        ]
  ]

  pub merging_Merges : Merges (merging_kit net) merging_cli
  merging_Merges = record {
    status_merged = λ w d p ns name.
        elim (merged w p (with_status d.status w.policy) ns name (refl, refl)) [
          | inl same ↦ inl same
          | inr (before, own, after) ↦ inr (w.policy, d.status, before, own, after, λ _. refl)
        ];
    spec_merged = λ w paused p ns name.
        let g = w.policy.generation +ℤ pos 1 in
        elim (merged w p (regenerated g (with_paused paused w.policy)) ns name (refl, refl)) [
          | inl same ↦ inl same
          | inr (before, own, after) ↦ inr (w.policy, before, g, after)
        ];
  }

  pub merging_Server : Server (merging_kit net) merging_cli
  merging_Server =
      let s = small_Server net in
      record {
        keyed = s.keyed;
        status_patched = λ w d p ns name own.
            let (here, same) = read_policy-found w p.namespace p.name p own in
            subst
              (λ x.
                Replaced p (with_status d.status p) (read_policy w ns name)
                  (written w p (with_status d.status x) ns name))
              (sym same) (write-Replaced net w p (with_status d.status p) ns name own (refl, refl));
        status_accepted = λ w d p ns name there h.
            let (here, same) = read_policy-found w ns name p there in
            subst
              (λ x. written w p (with_status d.status x) ns name ≡ found (with_status d.status p))
              (sym same) (accepted net w p (with_status d.status p) ns name there (refl, refl));
        routes_apart = λ w d p ns name. ap found (
            write_if-route net (stored_under w.policy p.namespace p.name)
              (with_status d.status w.policy) w);
        policies_apart = s.policies_apart;
        read_by_both = s.read_by_both;
        spec_patched = λ w paused p ns name own.
            let g = w.policy.generation +ℤ pos 1 in
            let (here, same) = read_policy-found w p.namespace p.name p own in
            (
              g,
              subst
                  (λ x.
                    Replaced p (regenerated g (with_paused paused p)) (read_policy w ns name)
                      (written w p (regenerated g (with_paused paused x)) ns name))
                  (sym same)
                  (write-Replaced net w p (regenerated g (with_paused paused p)) ns name own
                    (refl, refl)),
            );
        same_status_sound = s.same_status_sound;
      }
