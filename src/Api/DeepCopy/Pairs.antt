-- ===== src/Api/DeepCopy/Pairs.antt =====
-- Copying one part of a struct and then another.
use traficctl.Prelude.{ap₂, ℕ, List, ◌++◌, ◌<◌, ◌≤◌}
use traficctl.Prelude.Lists.{length, All-append, All-append_inv}
use traficctl.Api.DeepCopy.Cells.{Heap}
use traficctl.Api.DeepCopy.Copying.{
  Below, SameCell, IsLocal, IsCopy, CopiesInto, Grows-trans, IsCopy-keep, IsCopy-later, Below-Grows,
}

-- Two parts of a struct, or what they read as.
pub record Two (A B : Type 0) : Type 0 where
  pub first : A
  pub second : B

module _ {K M L A B V U : Type 0} (view : Heap K M L → A → V) (reach : Heap K M L → A → List ℕ)
    (view' : Heap K M L → B → U) (reach' : Heap K M L → B → List ℕ) where
  abbrev pub view_two : Heap K M L → Two A B → Two V U
  view_two h x = record { first = view h x.first; second = view' h x.second }

  abbrev pub reach_two : Heap K M L → Two A B → List ℕ
  reach_two h x = reach h x.first ++ reach' h x.second

  abbrev pub two_into :
      (A → Heap K M L → Heap K M L × A)
      → (B → Heap K M L → Heap K M L × B)
      → Two A B
      → Heap K M L
      → Heap K M L × Two A B
  two_into into into' x h₀ =
      let (h₁, a) = into x.first h₀ in
      let (h₂, b) = into' x.second h₁ in (h₂, record { first = a; second = b })

  module _ (local : IsLocal view reach) (local' : IsLocal view' reach') where
    pub two-IsLocal : IsLocal view_two reach_two
    two-IsLocal = record {
      view_local = λ h h' x all.
          let (l, r) = All-append_inv (SameCell h h') (reach h x.first) (reach' h x.second) all in
          ap₂ (λ a b. record { first = a; second = b }) (local.view_local h h' x.first l)
            (local'.view_local h h' x.second r);
      reach_local = λ h h' x all.
          let (l, r) = All-append_inv (SameCell h h') (reach h x.first) (reach' h x.second) all in
          ap₂ ◌++◌ (local.reach_local h h' x.first l) (local'.reach_local h h' x.second r);
    }

    pub two-IsCopy :
        (into : A → Heap K M L → Heap K M L × A) (into' : B → Heap K M L → Heap K M L × B)
        (h₀ : Heap K M L) (x : Two A B)
        → Below (length h₀) (reach_two h₀ x)
        → (Below (length h₀) (reach h₀ x.first) → IsCopy view reach h₀ x.first (into x.first h₀))
        → ((h : Heap K M L)
            → Below (length h) (reach' h x.second)
            → IsCopy view' reach' h x.second (into' x.second h))
        → IsCopy view_two reach_two h₀ x (two_into into into' x h₀)
    two-IsCopy into into' h₀ x below copies copies' =
        let (l, r) =
          All-append_inv (λ i. i < length h₀) (reach h₀ x.first) (reach' h₀ x.second) below in
        let h₁ = (into x.first h₀).0 in
        let a = (into x.first h₀).1 in
        let h₂ = (into' x.second h₁).0 in
        let b = (into' x.second h₁).1 in
        let c = copies l in
        let d = copies' h₁ (Below-Grows view' reach' local' h₀ h₁ x.second c.grows r) in
        let kept = IsCopy-keep view reach local h₀ h₁ h₂ x.first a c d.grows in
        let then_ = IsCopy-later view' reach' local' h₀ h₁ x.second (h₂, b) c.grows r d in
        record {
          grows = Grows-trans h₀ h₁ h₂ c.grows d.grows;
          same = ap₂ (λ v u. record { first = v; second = u }) kept.same then_.same;
          fresh =
              All-append (λ i. (length h₀ ≤ i) × (i < length h₂)) (reach h₂ a) (reach' h₂ b)
                kept.fresh then_.fresh;
        }

    pub two-CopiesInto :
        (into : A → Heap K M L → Heap K M L × A) (into' : B → Heap K M L → Heap K M L × B)
        → CopiesInto view reach into
        → CopiesInto view' reach' into'
        → CopiesInto view_two reach_two (two_into into into')
    two-CopiesInto into into' copies copies' h₀ x below =
        two-IsCopy into into' h₀ x below (copies h₀ x.first) λ h. copies' h x.second
