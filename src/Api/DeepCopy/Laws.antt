-- ===== src/Api/DeepCopy/Laws.antt =====
-- The generated deep copies are copies, and writes through one do not show in the other.
use traficctl.Prelude.{◌≡◌, refl, ap, ap₂, List, [], ◌∷◌, map, Option, some}
use traficctl.Prelude.Lists.{length}
use traficctl.Api.DeepCopy.{
  Machinery, Copies, deep_copy, flat_into, copy_latency, copy_error_rate, metrics_into,
  copy_backends, copy_metrics, spec_into, copy_weights, copy_time, copy_conditions, status_into,
  policy_into, items_into, copy_items, list_into,
}
use traficctl.Api.DeepCopy.Cells.{
  Cell, Heap, PolicyRef, latency_cell, error_rate_cell, metrics_cell, time_cell, backends_cell,
  weights_cell, conditions_cell, items_cell, latency_at, error_rate_at, metrics_at, time_at,
  backends_at, weights_at, conditions_at, items_at,
}
use traficctl.Api.DeepCopy.Copying.{IsCopy, Below, Grows-refl}
use traficctl.Api.DeepCopy.Pointers.{plain-CopiesInto}
use traficctl.Api.DeepCopy.Pairs.{two-IsCopy}
use traficctl.Api.DeepCopy.Kinds.{
  Kind, Copied, plain_kind, pointer, both, each, pointer-Copied, both-Copied, struct-Copied,
}
use traficctl.Api.DeepCopy.Views.{
  metrics_kind, spec_kind, status_kind, policy_kind, list_kind, metrics_parts, metrics_value,
  spec_parts, spec_value, status_parts, status_value, PolicyValue, policy_parts, policy_value,
  list_value, leaf, metrics_pointers, spec_pointers, last_pointers, later_pointers,
}

module _ {K M L : Type 0} where
  -- A pointer to what holds no pointers.
  leaf-Copied :
      {A : Type 0} (wrap : A → Cell K M L) (contents : Option (Cell K M L) → A) (f : A → A)
      → ((a : A) → contents (some (wrap a)) ≡ a)
      → ((a : A) → f a ≡ a)
      → Copied (leaf contents) (deep_copy wrap contents λ a h. (h, f a))
  leaf-Copied wrap contents f back same =
      pointer-Copied contents plain_kind wrap (λ a h. (h, f a)) back (plain-CopiesInto f same)

  metrics-Copied : Copied metrics_kind (metrics_into {K = K} {M = M} {L = L})
  unfolding metrics_into copy_latency copy_error_rate flat_into
  metrics-Copied =
      struct-Copied metrics_parts metrics_value metrics_pointers _
        (λ m p. record { latency = p.first; error_rate = p.second }) (λ m p. refl) (λ m p v. refl)
        (both-Copied (leaf latency_at) (leaf error_rate_at) _ _
          (leaf-Copied latency_cell latency_at (λ x. x) (λ a. refl) (λ a. refl))
          (leaf-Copied error_rate_cell error_rate_at (λ x. x) (λ a. refl) (λ a. refl)))

  spec-Copied : Copied spec_kind (spec_into {K = K} {M = M} {L = L})
  unfolding spec_into copy_backends copy_metrics flat_into
  spec-Copied =
      struct-Copied spec_parts spec_value spec_pointers _
        (λ s p. record s { backends = p.first; metrics = p.second }) (λ m p. refl) (λ m p v. refl)
        (both-Copied (leaf backends_at) (pointer metrics_at metrics_kind) _ _
          (leaf-Copied backends_cell backends_at (λ x. x) (λ a. refl) (λ a. refl))
          (pointer-Copied metrics_at metrics_kind metrics_cell metrics_into (λ a. refl)
            metrics-Copied))

map-same : {A : Type 0} → (f : A → A) → ((a : A) → f a ≡ a) → (xs : List A) → map f xs ≡ xs
map-same f same [] = refl
map-same f same (x ∷ xs) = ap₂ ◌∷◌ (same x) (map-same f same xs)

module _ {K M L : Type 0} (lib : Machinery K M L) (law : Copies lib) where
  time-Copied : Copied (leaf time_at) (copy_time lib)
  unfolding copy_time
  time-Copied = leaf-Copied time_cell time_at lib.copy_time (λ a. refl) law.time

  status-Copied : Copied status_kind (status_into lib)
  unfolding status_into copy_weights copy_conditions flat_into
  status-Copied =
      struct-Copied status_parts status_value (both (leaf weights_at) later_pointers) _
        (λ s p. record s {
          weights = p.first;
          last_evaluation_time = p.second.first;
          last_weight_change_time = p.second.second.first;
          conditions = p.second.second.second;
        })
        (λ m p. refl) (λ m p v. refl)
        (both-Copied (leaf weights_at) later_pointers _ _
          (leaf-Copied weights_cell weights_at (λ x. x) (λ a. refl) (λ a. refl))
          (both-Copied (leaf time_at) last_pointers _ _ time-Copied (
            both-Copied (leaf time_at) (leaf conditions_at) _ _ time-Copied (
              leaf-Copied conditions_cell conditions_at (map lib.copy_condition) (λ a. refl)
                (map-same lib.copy_condition law.condition)))))

  pub policy-Copied : Copied policy_kind (policy_into lib)
  unfolding policy_into
  policy-Copied =
      struct-Copied policy_parts policy_value (both spec_kind status_kind) _
        (λ x p. record x { meta = lib.copy_meta x.meta; spec = p.first; status = p.second })
        (λ m p. refl)
        (λ x p v.
          ap (λ m. record { type_meta = x.type_meta; meta = m; spec = v.first; status = v.second })
            (law.meta x.meta))
        (both-Copied spec_kind status_kind _ _ spec-Copied status-Copied)

  items-IsCopy :
      (ps : List (PolicyRef K M)) (h : Heap K M L)
      → Below (length h) ((each policy_kind).cells h ps)
      → IsCopy (each policy_kind).view (each policy_kind).cells h ps (items_into lib ps h)
  unfolding items_into
  items-IsCopy [] h below = record { grows = Grows-refl h; same = refl; fresh = tt }
  items-IsCopy (p ∷ ps) h below =
      let k : Kind K M L (PolicyRef K M) (PolicyValue K M) = policy_kind in
      let ks = each k in
      let c =
        two-IsCopy k.view k.cells ks.view ks.cells k.local ks.local (policy_into lib)
          (items_into lib) h (record { first = p; second = ps }) below (policy-Copied h p)
          (items-IsCopy ps) in
      record { grows = c.grows; same = ap (λ v. v.first ∷ v.second) c.same; fresh = c.fresh }

  pub list-Copied : Copied list_kind (list_into lib)
  unfolding list_into copy_items
  list-Copied =
      struct-Copied (λ l. l.items) list_value (pointer items_at (each policy_kind)) _
        (λ l p. record l { meta = lib.copy_list_meta l.meta; items = p }) (λ m p. refl)
        (λ l p v.
          ap (λ m. record { type_meta = l.type_meta; meta = m; items = v }) (law.list_meta l.meta))
        (pointer-Copied items_at (each policy_kind) items_cell (items_into lib) (λ a. refl)
          λ h ps below. items-IsCopy ps h below)
