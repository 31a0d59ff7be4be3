-- ===== src/System/Overlap.antt =====
-- Calls of the reconciler and of the tool that overlap: what has to hold between their reads and their
-- writes.
pub mod Status
pub mod Flag
pub mod Runs
pub mod Examples
use traficctl.Prelude.{
  ◌≡◌, refl, sym, ◌∙◌, ap, ◌⊎◌, inl, inr, Option, none, some, Bool, String, List,
}
use mathlib.Core.Option.{some-injective}
use traficctl.Prelude.Float.{Float, TruncatesShares}
use traficctl.Prelude.Results.{Result, ok, fails}
use traficctl.Prelude.Tests.{Bool-cases}
use traficctl.Api.Types.{TrafficPolicy, TrafficPolicyStatus}
use traficctl.Api.Schema.{total_weight}
use traficctl.Router.{Fetched, found, absent, failed, apply}
use traficctl.Cli.{PolicyClient, with_paused, toggle_read}
use traficctl.Cli.Laws.{regenerated, Toggled, toggle_read-Toggled}
use traficctl.Cli.Writes.{Output}
use traficctl.Controller.Env.{World, Readings, patch_status_if_changed}
use traficctl.Controller.Reconcile.{reconcile, reconcile_policy}
use traficctl.Manager.{Flags}
use traficctl.Manager.Wiring.{Kit, reconciler}
use traficctl.System.Server.{Server, with_status, apply-policies, own_key}
use traficctl.System.Sound.{Sound, Desired, reconcile_policy-Desired}
use traficctl.System.Steps.{Tolerated}
use traficctl.System.Invariant.{AllSound, toggled-Sound, others-AllSound}
use traficctl.System.Interleaved.{
  Merges, SameWeights, Sys, Move, read, acted, missed, toggled, restarted, cut, others, Run, here,
  next, Undisturbed,
}

pub found-injective : {x y : TrafficPolicy} → found x ≡ found y → x ≡ y
found-injective h = cc

module _ {W F X H B : Type 0} (kit : Kit W F X H B) where
  -- A policy in flight was sound when it was read, and what is stored under its key still has its backends
  -- and weights.
  abbrev pub Current : W → Option TrafficPolicy → Type 0
  Current c pending =
      (p : TrafficPolicy)
      → pending ≡ some p
      → Sound p
        × ((q : TrafficPolicy) → kit.get_policy c p.namespace p.name ≡ found q → SameWeights p q)

  pub record Coherent (s : Sys W F) : Type 0 where
    pub sound : AllSound kit s.world.cluster
    pub current : Current s.world.cluster s.in_flight

  pub idle : (c : W) → Current c none
  idle c p e = cc
