-- ===== src/Api/DeepCopy.antt =====
-- api/v1alpha1/zz_generated.deepcopy.go: the deep copies, on the heap of Api/DeepCopy/Cells.antt. An
-- allocation holds its final contents at once.
pub mod Cells
pub mod Copying
pub mod Pointers
pub mod Pairs
pub mod Kinds
pub mod Views
pub mod Laws
pub mod Apart
pub mod Examples
use traficctl.Prelude.{ℕ, ◌≡◌, List, [], ◌∷◌, ◌++◌, map, Option, none, some}
use traficctl.Prelude.Lists.{length, get_elem?}
use traficctl.Api.Types.{Condition}
use Cells.{
  MetricSpecRef, SpecRef, StatusRef, PolicyRef, ListRef, Cell, Heap, backend_cell, weight_cell,
  latency_cell, error_rate_cell, metrics_cell, strategy_cell, spec_cell, status_cell, policy_cell,
  list_cell, time_cell, backends_cell, weights_cell, conditions_cell, items_cell, backend_at,
  weight_at, latency_at, error_rate_at, metrics_at, strategy_at, spec_at, status_at, time_at,
  backends_at, weights_at, conditions_at, items_at, no_spec, no_status,
}

-- The deep copies of the API machinery: `ObjectMeta.DeepCopyInto`, `ListMeta.DeepCopyInto`,
-- `Time.DeepCopy` and `Condition.DeepCopyInto`, by what the copy holds; and its zero values.
pub record Machinery (K M L : Type 0) : Type 0 where
  pub copy_meta : M → M
  pub copy_list_meta : L → L
  pub copy_time : ℕ → ℕ
  pub copy_condition : Condition → Condition
  pub no_type_meta : K
  pub no_meta : M
  pub no_list_meta : L

-- What a copy holds is what was copied.
pub record Copies {K M L : Type 0} (m : Machinery K M L) : Type 0 where
  pub meta : (x : M) → m.copy_meta x ≡ x
  pub list_meta : (x : L) → m.copy_list_meta x ≡ x
  pub time : (x : ℕ) → m.copy_time x ≡ x
  pub condition : (x : Condition) → m.copy_condition x ≡ x

module _ {K M L : Type 0} where
  -- `DeepCopy` of a type, by its `DeepCopyInto`: a pointer that is not nil leads to a new cell, which
  -- holds a copy of the contents. A field that is a pointer or a slice is copied in the same way.
  unfoldable pub deep_copy :
      {A : Type 0}
      → (A → Cell K M L)
      → (Option (Cell K M L) → A)
      → (A → Heap K M L → Heap K M L × A)
      → Option ℕ
      → Heap K M L
      → Heap K M L × Option ℕ
  deep_copy wrap contents into none h = (h, none)
  deep_copy wrap contents into (some p) h₀ =
      let (h₁, x) = into (contents (get_elem? h₀ p)) h₀ in (h₁ ++ (wrap x ∷ []), some (length h₁))

  -- `DeepCopyInto` of a struct without pointers, and `copy` of a slice of them.
  unfoldable pub flat_into : {A : Type 0} → A → Heap K M L → Heap K M L × A
  flat_into x h = (h, x)

  unfoldable pub copy_backend : Option ℕ → Heap K M L → Heap K M L × Option ℕ
  unfolding deep_copy flat_into
  copy_backend = deep_copy backend_cell backend_at flat_into

  unfoldable pub copy_backend_weight : Option ℕ → Heap K M L → Heap K M L × Option ℕ
  unfolding deep_copy flat_into
  copy_backend_weight = deep_copy weight_cell weight_at flat_into

  unfoldable pub copy_latency : Option ℕ → Heap K M L → Heap K M L × Option ℕ
  unfolding deep_copy flat_into
  copy_latency = deep_copy latency_cell latency_at flat_into

  unfoldable pub copy_error_rate : Option ℕ → Heap K M L → Heap K M L × Option ℕ
  unfolding deep_copy flat_into
  copy_error_rate = deep_copy error_rate_cell error_rate_at flat_into

  unfoldable pub copy_strategy : Option ℕ → Heap K M L → Heap K M L × Option ℕ
  unfolding deep_copy flat_into
  copy_strategy = deep_copy strategy_cell strategy_at flat_into

  unfoldable pub copy_backends : Option ℕ → Heap K M L → Heap K M L × Option ℕ
  unfolding deep_copy flat_into
  copy_backends = deep_copy backends_cell backends_at flat_into

  unfoldable pub copy_weights : Option ℕ → Heap K M L → Heap K M L × Option ℕ
  unfolding deep_copy flat_into
  copy_weights = deep_copy weights_cell weights_at flat_into

  unfoldable pub metrics_into : MetricSpecRef → Heap K M L → Heap K M L × MetricSpecRef
  unfolding copy_latency copy_error_rate
  metrics_into m h₀ =
      let (h₁, latency) = copy_latency m.latency h₀ in
      let (h₂, error_rate) = copy_error_rate m.error_rate h₁ in
      (h₂, record { latency = latency; error_rate = error_rate })

  unfoldable pub copy_metrics : Option ℕ → Heap K M L → Heap K M L × Option ℕ
  unfolding deep_copy metrics_into
  copy_metrics = deep_copy metrics_cell metrics_at metrics_into

  unfoldable pub spec_into : SpecRef → Heap K M L → Heap K M L × SpecRef
  unfolding copy_backends copy_metrics
  spec_into s h₀ =
      let (h₁, backends) = copy_backends s.backends h₀ in
      let (h₂, metrics) = copy_metrics s.metrics h₁ in
      (h₂, record s { backends = backends; metrics = metrics })

  unfoldable pub copy_spec : Option ℕ → Heap K M L → Heap K M L × Option ℕ
  unfolding deep_copy spec_into
  copy_spec = deep_copy spec_cell spec_at spec_into

  -- `DeepCopyObject`, which gives an interface: a nil pointer is a nil interface.
  abbrev pub as_object : Heap K M L × Option ℕ → Heap K M L × Option ℕ
  as_object (h, none) = (h, none)
  as_object (h, some c) = (h, some c)

module _ {K M L : Type 0} (lib : Machinery K M L) where
  unfoldable pub copy_time : Option ℕ → Heap K M L → Heap K M L × Option ℕ
  unfolding deep_copy
  copy_time = deep_copy time_cell time_at λ x h. (h, lib.copy_time x)

  unfoldable pub copy_conditions : Option ℕ → Heap K M L → Heap K M L × Option ℕ
  unfolding deep_copy
  copy_conditions = deep_copy conditions_cell conditions_at λ cs h. (h, map lib.copy_condition cs)

  unfoldable pub status_into : StatusRef → Heap K M L → Heap K M L × StatusRef
  unfolding copy_weights copy_time copy_conditions
  status_into s h₀ =
      let (h₁, weights) = copy_weights s.weights h₀ in
      let (h₂, evaluated) = copy_time s.last_evaluation_time h₁ in
      let (h₃, changed) = copy_time s.last_weight_change_time h₂ in
      let (h₄, conditions) = copy_conditions s.conditions h₃ in
      (
        h₄,
        record s {
          weights = weights;
          last_evaluation_time = evaluated;
          last_weight_change_time = changed;
          conditions = conditions;
        },
      )

  unfoldable pub copy_status : Option ℕ → Heap K M L → Heap K M L × Option ℕ
  unfolding deep_copy status_into
  copy_status = deep_copy status_cell status_at status_into

  unfoldable pub policy_into : PolicyRef K M → Heap K M L → Heap K M L × PolicyRef K M
  unfolding spec_into status_into
  policy_into p h₀ =
      let (h₁, spec) = spec_into p.spec h₀ in
      let (h₂, status) = status_into p.status h₁ in
      (h₂, record p { meta = lib.copy_meta p.meta; spec = spec; status = status })

  abbrev pub policy_at : Option (Cell K M L) → PolicyRef K M
  policy_at (some (policy_cell x)) = x
  policy_at _ = record {
    type_meta = lib.no_type_meta;
    meta = lib.no_meta;
    spec = no_spec;
    status = no_status;
  }

  abbrev pub list_at : Option (Cell K M L) → ListRef K L
  list_at (some (list_cell x)) = x
  list_at _ = record { type_meta = lib.no_type_meta; meta = lib.no_list_meta; items = none }

  unfoldable pub copy_policy : Option ℕ → Heap K M L → Heap K M L × Option ℕ
  unfolding deep_copy policy_into
  copy_policy = deep_copy policy_cell policy_at policy_into

  unfoldable pub copy_policy_object : Option ℕ → Heap K M L → Heap K M L × Option ℕ
  unfolding copy_policy
  copy_policy_object p h = as_object (copy_policy p h)

  -- The loop over `Items`.
  unfoldable pub items_into : List (PolicyRef K M) → Heap K M L → Heap K M L × List (PolicyRef K M)
  unfolding policy_into
  items_into [] h = (h, [])
  items_into (p ∷ ps) h₀ =
      let (h₁, q) = policy_into p h₀ in let (h₂, qs) = items_into ps h₁ in (h₂, q ∷ qs)

  unfoldable pub copy_items : Option ℕ → Heap K M L → Heap K M L × Option ℕ
  unfolding deep_copy items_into
  copy_items = deep_copy items_cell items_at items_into

  unfoldable pub list_into : ListRef K L → Heap K M L → Heap K M L × ListRef K L
  unfolding copy_items
  list_into l h₀ =
      let (h₁, items) = copy_items l.items h₀ in
      (h₁, record l { meta = lib.copy_list_meta l.meta; items = items })

  unfoldable pub copy_list : Option ℕ → Heap K M L → Heap K M L × Option ℕ
  unfolding deep_copy list_into
  copy_list = deep_copy list_cell list_at list_into

  unfoldable pub copy_list_object : Option ℕ → Heap K M L → Heap K M L × Option ℕ
  unfolding copy_list
  copy_list_object p h = as_object (copy_list p h)
