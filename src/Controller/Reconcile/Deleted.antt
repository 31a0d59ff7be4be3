-- ===== src/Controller/Reconcile/Deleted.antt =====
-- `Reconcile` of a policy that is gone, and the buffers of the smoother.
use Prim.Native.String.{◌++◌ as append, count}
use text.Mathlib.Text.{◌==◌}
use text.Mathlib.TextEquality.{eq_iff}
use text.Mathlib.TextLemmas.{length-append}
use traficctl.Prelude.{◌≡◌, ◌≢◌, refl, sym, ◌∙◌, ap, some, arith, String, inl, inr}
use traficctl.Prelude.Tests.{Bool-cases}
use traficctl.Prelude.Dict.{lookup-delete}
use traficctl.Prelude.Float.{Float}
use traficctl.Router.{absent}
use traficctl.Smoother.{Smoother, buffer, forget}
use traficctl.Controller.Env.{Env, World, Readings}
use traficctl.Controller.Sampling.{smoothing_key}
use traficctl.Controller.Reconcile.{reconcile}

-- The key of a signal is longer than the key of its policy.
smoothing_key-ne :
    (ns name signal : String) → append ns (append "/" name) ≢ smoothing_key ns name signal
unfolding smoothing_key
smoothing_key-ne ns name signal e =
    let lengths = ap count e in
    absurd (
      omega (
        arith,
        lengths,
        length-append ns (append "/" name),
        length-append "/" name,
        length-append ns (append "/" (append name (append "#" signal))),
        length-append "/" (append name (append "#" signal)),
        length-append name (append "#" signal),
        length-append "#" signal,
      ))

module _ {W F : Type 0} ⦃fl : Float F⦄ (env : Env W F) where
  -- If the policy is gone, and the request's key is its namespace and name with a slash between, then
  -- the call leaves every buffer that `smooth` has filled for the policy as it was.
  pub reconcile-buffer :
      (t : Readings) (ns name key : String) (w : World W F) (s : Smoother F)
      (signal backend : String)
      → env.get_policy w.cluster ns name ≡ absent
      → key ≡ append ns (append "/" name)
      → w.smoother ≡ some s
      → (s' : Smoother F) × ((reconcile env t ns name key w).0.smoother ≡ some s')
        × (buffer s' (smoothing_key ns name signal) backend
            ≡ buffer s (smoothing_key ns name signal) backend)
  unfolding reconcile forget
  reconcile-buffer t ns name key w s signal backend gone same has =
      let full = smoothing_key ns name signal in
      elim (Bool-cases (key == full)) [
        | inl e ↦ absurd (smoothing_key-ne ns name signal (sym same ∙ (eq_iff key full).0 e))
        | inr e ↦
            (forget s key, rw (gone, has, reconcile) refl, rw (lookup-delete key full, e) refl)
      ]
