-- ===== src/System/Small.antt =====
-- A cluster of one policy and its route, for the tests: it keeps what the API server promises.
pub mod Merging
use text.Mathlib.Text.{◌==◌}
use text.Mathlib.TextEquality.{eq_iff}
use traficctl.Prelude.{
  ◌≡◌, refl, sym, ◌∙◌, ap, ap₂, inl, inr, [], ◌∷◌, Option, none, some, Bool, true, false, String,
  ◌&&◌,
}
use traficctl.Prelude.Tests.{if◌then◌else◌, Bool-cases, true-ne-false}
use traficctl.Prelude.Int.{ℤ, pos, ◌+ℤ◌}
use traficctl.Prelude.Results.{ok, fails, ok-injective}
use traficctl.Prelude.Whole.{whole}
use traficctl.Api.Types.{TrafficPolicy}
use traficctl.Router.{Fetched, found, absent, HttpRoute}
use traficctl.Metrics.Prometheus.{Net, QueryResponse}
use traficctl.Cli.{PolicyClient, with_paused}
use traficctl.Cli.Laws.{regenerated, Keeps}
use traficctl.Cli.Writes.{Output}
use traficctl.Manager.Wiring.{Kit}
use traficctl.System.Server.{Server, Replaced, with_status}

pub record Store : Type 0 where
  pub policy : TrafficPolicy
  pub route : HttpRoute Unit

abbrev pub stored_under : TrafficPolicy → String → String → Bool
stored_under p ns name = (p.namespace == ns) && (p.name == name)

abbrev pub read_policy : Store → String → String → Fetched TrafficPolicy
read_policy w ns name = if stored_under w.policy ns name then found w.policy else absent

abbrev pub write_if : Bool → TrafficPolicy → Store → Store × Option String
write_if true p w = (record w { policy = p }, none)
write_if false p w = (w, some "not found")

abbrev pub small_kit : Net Store ℤ Unit QueryResponse → Kit Store ℤ Unit Unit QueryResponse
small_kit net = record {
  get_policy = read_policy;
  patch_status =
      λ w d p. write_if (stored_under w.policy p.namespace p.name) (with_status d.status p) w;
  routes = record {
    get = λ w ns name. found w.route;
    patch = λ w ns name old new. (record w { route = new }, none);
  };
  net = net;
  http_client = λ timeout. tt;
  event_recorder = none;
  set_condition = λ cs c. c ∷ [];
  find_condition = λ cs kind. none;
  same_status = λ a b. false;
}

abbrev pub small_cli : PolicyClient Store
small_cli = record {
  list = λ w ns. ok (w.policy ∷ []);
  get = λ w ns name. if stored_under w.policy ns name then ok w.policy else fails "not found";
  patch = λ w changed p.
      write_if (stored_under w.policy p.namespace p.name)
        (regenerated (p.generation +ℤ pos 1) changed) w;
}

key_of :
    (p : TrafficPolicy) (ns name : String)
    → stored_under p ns name ≡ true
    → (p.namespace ≡ ns) × (p.name ≡ name)
key_of p ns name h =
    let (a, b) = both (p.namespace == ns) (p.name == name) h in
    ((eq_iff p.namespace ns).0 a, (eq_iff p.name name).0 b)
  where
    both : (a b : Bool) → (a && b) ≡ true → (a ≡ true) × (b ≡ true)
    both true b h = (refl, h)
    both false b h = absurd (true-ne-false (sym h))

-- A read that finds a policy finds the stored one.
pub read_policy-found :
    (w : Store) (ns name : String) (p : TrafficPolicy)
    → read_policy w ns name ≡ found p
    → (stored_under w.policy ns name ≡ true) × (w.policy ≡ p)
read_policy-found w ns name p h = elim (Bool-cases (stored_under w.policy ns name)) [
  | inl e ↦ (e, found-injective (rw e at h))
  | inr e ↦ absurd (absent-ne-found (rw e at h))
]
  where
    found-injective : {x y : TrafficPolicy} → found x ≡ found y → x ≡ y
    found-injective h = cc

    absent-ne-found : {x : TrafficPolicy} → ¬ (absent ≡ found x)
    absent-ne-found h = cc

module _ (net : Net Store ℤ Unit QueryResponse) where
  pub same_key :
      (p q : TrafficPolicy) (ns name : String)
      → (q.namespace ≡ p.namespace) × (q.name ≡ p.name)
      → stored_under q ns name ≡ stored_under p ns name
  same_key p q ns name (a, b) = ap₂ (λ x y. (x == ns) && (y == name)) a b

  -- The stored policy `p` is replaced by one under the same key.
  pub write-Replaced :
      (w : Store) (p q : TrafficPolicy) (ns name : String)
      → read_policy w p.namespace p.name ≡ found p
      → (q.namespace ≡ p.namespace) × (q.name ≡ p.name)
      → Replaced p q
          (read_policy w ns name)
          (read_policy (write_if (stored_under w.policy p.namespace p.name) q w).0 ns name)
  write-Replaced w p q ns name own key =
      let (here, same) = read_policy-found w p.namespace p.name p own in
      let moved = same_key p q ns name key ∙ ap (λ x. stored_under x ns name) (sym same) in
      elim (Bool-cases (stored_under w.policy ns name)) [
        | inl e ↦ inr (rw e (ap found same), rw (here, moved, e) refl)
        | inr e ↦ inl (rw (here, moved, e) refl)
      ]

  pub accepted :
      (w : Store) (p q : TrafficPolicy) (ns name : String)
      → read_policy w ns name ≡ found p
      → (q.namespace ≡ p.namespace) × (q.name ≡ p.name)
      → read_policy (write_if (stored_under w.policy p.namespace p.name) q w).0 ns name ≡ found q
  accepted w p q ns name there key =
      let (here, same) = read_policy-found w ns name p there in
      let (same_ns, same_name) = key_of w.policy ns name here in
      let own : stored_under w.policy p.namespace p.name ≡ true =
        ap (λ (x : TrafficPolicy). stored_under w.policy x.namespace x.name) (sym same)
        ∙ ap₂ (λ a b. stored_under w.policy a b) same_ns same_name
        ∙ here in
      let moved = same_key p q ns name key ∙ ap (λ x. stored_under x ns name) (sym same) in
      rw (own, moved, here) refl

  write_if-route : (b : Bool) (q : TrafficPolicy) (w : Store) → (write_if b q w).0.route ≡ w.route
  write_if-route true q w = refl
  write_if-route false q w = refl

  tool_agrees :
      (w : Store) (ns name : String) (p : TrafficPolicy)
      → read_policy w ns name ≡ found p
      → small_cli.get w ns name ≡ ok p
  tool_agrees w ns name p h =
      let (here, same) = read_policy-found w ns name p h in rw here (ap ok same)

  pub tool_reads :
      (w : Store) (ns name : String) (p : TrafficPolicy)
      → small_cli.get w ns name ≡ ok p
      → read_policy w ns name ≡ found p
  tool_reads w ns name p h = elim (Bool-cases (stored_under w.policy ns name)) [
    | inl e ↦ rw e (ap found (ok-injective (rw e at h)))
    | inr e ↦ absurd (not_read (rw e at h))
  ]
    where
      not_read : {e : String} {x : TrafficPolicy} → ¬ (fails e ≡ ok x)
      not_read h = cc

  pub small_Server : Server (small_kit net) small_cli
  small_Server = record {
    keyed = λ w ns name p h.
        let (here, same) = read_policy-found w ns name p h in
        let (a, b) = key_of w.policy ns name here in
        (ap (λ x. x.namespace) (sym same) ∙ a, ap (λ x. x.name) (sym same) ∙ b);
    status_patched =
        λ w d p ns name own. write-Replaced w p (with_status d.status p) ns name own (refl, refl);
    status_accepted =
        λ w d p ns name there h. accepted w p (with_status d.status p) ns name there (refl, refl);
    routes_apart = λ w d p ns name.
        ap found
          (write_if-route (stored_under w.policy p.namespace p.name) (with_status d.status p) w);
    policies_apart = λ w a b r r' ns name. refl;
    read_by_both = tool_reads;
    spec_patched = λ w paused p ns name own. (
      p.generation +ℤ pos 1,
      write-Replaced w p (regenerated (p.generation +ℤ pos 1) (with_paused paused p)) ns name own
          (refl, refl),
    );
    same_status_sound = λ a b h. absurd (true-ne-false (sym h));
  }

  pub small_Keeps : {O : Type 0} (out : Output O) → Keeps small_cli out
  small_Keeps out = record {
    named = λ w ns name p h. small_Server.keyed w ns name p (tool_reads w ns name p h);
    patched = λ w changed p own same_ns same_name h.
        let g = p.generation +ℤ pos 1 in
        (
          g,
          tool_agrees (small_cli.patch w changed p).0 p.namespace p.name (regenerated g changed) (
              accepted w p (regenerated g changed) p.namespace p.name
                (tool_reads w p.namespace p.name p own) (same_ns, same_name)),
        );
  }
