-- ===== src/Manager/Laws.antt =====
-- cmd/main.go: what the flags secure, and when the process exits.
use traficctl.Prelude.{
  ℕ, zero, suc, ◌≡◌, ◌↔◌, refl, ap, List, [], ◌∷◌, Option, none, some, Bool, true, false, String,
  arith,
}
use traficctl.Prelude.Results.{Result, ok, fails}
use traficctl.Manager.{
  Flags, TlsConfig, TlsOption, disable_http2, tls_opts, Filter, authenticated, no_filter,
  manager_options, webhook_server_options, metrics_server_options,
}
use traficctl.Prelude.Float.{Float}
use traficctl.Manager.Process.{Host, exit_or, set_up_controller, run_manager, main}

-- A server applies its options in order to its configuration.
abbrev pub configure : List TlsOption → TlsConfig → TlsConfig
configure [] c = c
configure (o ∷ os) c = configure os (o c)

-- The protocols of a server whose configuration is `c` otherwise.
abbrev pub protocols : Bool → TlsConfig → List String
protocols true c = c.next_protos
protocols false c = "http/1.1" ∷ []

abbrev pub guard : Bool → Filter
guard true = authenticated
guard false = no_filter

tls_opts-protocols :
    (f : Flags) (c : TlsConfig) (b : Bool)
    → f.enable_http2 ≡ b
    → (configure (tls_opts f) c).next_protos ≡ protocols b c
unfolding tls_opts disable_http2
tls_opts-protocols f c true h = rw h refl
tls_opts-protocols f c false h = rw h refl

guarded :
    (f : Flags) (b : Bool)
    → f.secure_metrics ≡ b
    → (metrics_server_options f).filter_provider ≡ guard b
unfolding metrics_server_options
guarded f true h = rw h refl
guarded f false h = rw h refl

-- Both servers offer HTTP/1.1 alone unless HTTP/2 is enabled, in which case their protocols are left
-- as they are; the metrics server demands authentication exactly if it serves over HTTPS.
pub manager_options_lem :
    (f : Flags) (c : TlsConfig)
    → let o = manager_options f in
      ((configure o.webhook.tls_opts c).next_protos ≡ protocols f.enable_http2 c)
      × ((configure o.metrics.tls_opts c).next_protos ≡ protocols f.enable_http2 c)
      × (o.metrics.filter_provider ≡ guard o.metrics.secure_serving)
unfolding manager_options webhook_server_options metrics_server_options
manager_options_lem f c = (
  tls_opts-protocols f c f.enable_http2 refl,
  tls_opts-protocols f c f.enable_http2 refl,
  guarded f f.secure_metrics refl,
)

one-ne-zero : ¬ (suc zero ≡ zero)
one-ne-zero e = omega (arith, e)

module _ {S M W F X H B : Type 0} ⦃fl : Float F⦄ (host : Host S M W F X H B) where
  -- Every step succeeds, each in the state that the one before it leaves.
  pub record Ran (f : Flags) (s : S) : Type 0 where
    pub s0 : S
    pub s1 : S
    pub s2 : S
    pub s3 : S
    pub s4 : S
    pub m : M
    pub made : host.new_manager s (manager_options f) ≡ (s0, ok m)
    pub set_up : set_up_controller host f s0 m ≡ (s1, none)
    pub healthz : host.add_healthz s1 m ≡ (s2, none)
    pub readyz : host.add_readyz s2 m ≡ (s3, none)
    pub started : host.start s3 m ≡ (s4, none)

  exit_or-zero :
      (r : S × Option String) (k : S → S × ℕ)
      → (exit_or host r k).1 ≡ 0
      → (s : S) × (r ≡ (s, none)) × ((k s).1 ≡ 0)
  exit_or-zero (s, some e) k h = absurd (one-ne-zero h)
  exit_or-zero (s, none) k h = (s, refl, h)

  run_manager-Ran :
      (f : Flags) (s : S) (r : S × Result M)
      → host.new_manager s (manager_options f) ≡ r
      → (run_manager host f r).1 ≡ 0
      → Ran f s
  unfolding run_manager
  run_manager-Ran f s (s0, fails e) made h = absurd (one-ne-zero h)
  run_manager-Ran f s (s0, ok m) made h =
      let (s1, up, h1) = exit_or-zero _ _ h in
      let (s2, healthz, h2) = exit_or-zero _ _ h1 in
      let (s3, readyz, h3) = exit_or-zero _ _ h2 in
      let (s4, started, _) = exit_or-zero _ _ h3 in
      record {
        s0 = s0;
        s1 = s1;
        s2 = s2;
        s3 = s3;
        s4 = s4;
        m = m;
        made = made;
        set_up = up;
        healthz = healthz;
        readyz = readyz;
        started = started;
      }

  Ran-exit : (f : Flags) (s : S) (r : Ran f s) → main host f s ≡ (r.s4, 0)
  unfolding main run_manager
  Ran-exit f s r = rw (r.made, r.set_up, r.healthz, r.readyz, r.started) refl

  -- The process ends with exit code 0 exactly if the manager is made, the controller is set up, both
  -- checks are added and the manager runs without an error, in that order and each in the state that
  -- the step before left.
  pub main_exit : (f : Flags) (s : S) → ((main host f s).1 ≡ 0) ↔ Ran f s
  unfolding main
  main_exit f s = (
    λ h. run_manager-Ran f s (host.new_manager s (manager_options f)) refl h,
    λ r. ap (λ (o : S × ℕ). o.1) (Ran-exit f s r),
  )
