-- ===== src/Smoother.antt =====
-- internal/evaluator/smoother.go: the ring buffers of recent samples and their means. The mutex makes
-- each call atomic, so a call is a function of the state.
pub mod Window
pub mod Laws
pub mod Examples
use traficctl.Prelude.{
  ℕ, zero, suc, ◌-◌, ◌<◌, ◌≡◌, refl, List, [], ◌∷◌, ◌++◌, Option, none, some, String,
}
use traficctl.Prelude.Tests.{if◌then◌else◌, ltb}
use traficctl.Prelude.Int.{ℤ, pos, lt_int, pos_part}
use traficctl.Prelude.Dict.{Dict, lookup, insert, delete}
use traficctl.Prelude.Lists.{length, drop}
use traficctl.Prelude.Float.{Float}

abbrev pub default_max_window : ℕ
default_max_window = 60

-- `data` of the source is `store`, by policy key and then by backend.
pub record Smoother (F : Type 0) : Type 0 where
  pub max_window : ℕ
  pub store : Dict (Dict (List F))

abbrev pub or_empty {ℓ} : {A : Type ℓ} → Option (List A) → List A
or_empty none = []
or_empty (some xs) = xs

-- The window after the two clamps.
unfoldable pub clamp_window : ℕ → ℤ → ℕ
clamp_window most window =
    let wanted = if lt_int window (pos 1) then 1 else pos_part window in
    if ltb most wanted then most else wanted

-- A cap that is not positive falls back to the default.
unfoldable pub cap_of : ℤ → ℕ
cap_of n = if lt_int n (pos 1) then default_max_window else pos_part n

module _ {F : Type 0} where
  unfoldable pub new_smoother : ℤ → Smoother F
  unfolding cap_of
  new_smoother n = record { max_window = cap_of n; store = [] }

  -- The buffer of a policy key and a backend; a missing one is empty.
  abbrev pub buffer : Smoother F → String → String → List F
  buffer s key backend = or_empty (lookup backend (or_empty (lookup key s.store)))

  -- `append`, then the cut to the most recent `most` samples.
  unfoldable pub append_sample : ℕ → List F → F → List F
  append_sample most old v =
      let buf = old ++ (v ∷ []) in
      if ltb most (length buf) then drop (length buf - most) buf else buf

  unfoldable pub forget : Smoother F → String → Smoother F
  forget s key = record s { store = delete key s.store }

module _ {F : Type 0} ⦃fl : Float F⦄ where
  unfoldable pub sum_from : F → List F → F
  sum_from acc [] = acc
  sum_from acc (v ∷ vs) = sum_from (fl.add acc v) vs

  -- The mean of the last `window` samples of a buffer.
  unfoldable pub mean_of_last : ℕ → List F → F
  unfolding sum_from
  mean_of_last window buf =
      let slice = drop (length buf - window) buf in
      fl.div (sum_from fl.nought slice) (fl.of_int (pos (length slice)))

  unfoldable pub observe : Smoother F → String → String → F → ℤ → Smoother F × F
  unfolding mean_of_last append_sample clamp_window
  observe s key backend v window =
      let buf = append_sample s.max_window (buffer s key backend) v in
      let policy = insert backend buf (or_empty (lookup key s.store)) in
      (
        record s { store = insert key policy s.store },
        mean_of_last (clamp_window s.max_window window) buf,
      )
