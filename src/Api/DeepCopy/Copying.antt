-- ===== src/Api/DeepCopy/Copying.antt =====
-- What it is for a copy on the heap to be a copy: it reads as what it copies, it leaves every cell as it
-- is, and all its own cells are new.
use traficctl.Prelude.{ℕ, zero, suc, ◌≤◌, ◌<◌, ◌≡◌, refl, ◌∙◌, List, [], ◌∷◌, ◌++◌, some, arith}
use traficctl.Prelude.Lists.{length, get_elem?, All, All-mono, length-append}
use traficctl.Api.DeepCopy.Cells.{Cell, Heap}

abbrev pub Below : ℕ → List ℕ → Type 0
Below n = All λ i. i < n

abbrev pub Between : ℕ → ℕ → List ℕ → Type 0
Between n m = All λ i. (n ≤ i) × (i < m)

module _ {K M L : Type 0} where
  abbrev pub SameCell : Heap K M L → Heap K M L → ℕ → Type 0
  SameCell h h' i = get_elem? h' i ≡ get_elem? h i

  -- Every cell stays, and there may be more.
  pub record Grows (h h' : Heap K M L) : Type 0 where
    pub longer : length h ≤ length h'
    pub same : (i : ℕ) → i < length h → SameCell h h' i

  pub Grows-refl : (h : Heap K M L) → Grows h h
  Grows-refl h = record { longer = omega arith; same = λ i _. refl }

  pub Grows-trans : (a b c : Heap K M L) → Grows a b → Grows b c → Grows a c
  Grows-trans a b c g k =
      let l = g.longer in
      record {
        longer = omega (arith, k.longer);
        same = λ i small. k.same i (omega arith) ∙ g.same i small;
      }

  get_elem?-append :
      (h k : Heap K M L) (i : ℕ) → i < length h → get_elem? (h ++ k) i ≡ get_elem? h i
  get_elem?-append [] k i small = absurd (omega arith)
  get_elem?-append (c ∷ h) k zero small = refl
  get_elem?-append (c ∷ h) k (suc i) small = get_elem?-append h k i (omega arith)

  pub get_elem?-last :
      (h : Heap K M L) (c : Cell K M L) → get_elem? (h ++ (c ∷ [])) (length h) ≡ some c
  get_elem?-last [] c = refl
  get_elem?-last (d ∷ h) c = get_elem?-last h c

  pub Grows-append : (h k : Heap K M L) → Grows h (h ++ k)
  Grows-append h k = record {
    longer = omega (arith, length-append h k);
    same = λ i small. get_elem?-append h k i small;
  }

  module _ {A V : Type 0} (view : Heap K M L → A → V) (reach : Heap K M L → A → List ℕ) where
    -- What a value reads as, and the cells that it reaches, depend on those cells only.
    pub record IsLocal : Type 0 where
      pub view_local :
          (h h' : Heap K M L) (a : A) → All (SameCell h h') (reach h a) → view h' a ≡ view h a
      pub reach_local :
          (h h' : Heap K M L) (a : A) → All (SameCell h h') (reach h a) → reach h' a ≡ reach h a

    pub record IsCopy (h : Heap K M L) (a : A) (out : Heap K M L × A) : Type 0 where
      pub grows : Grows h out.0
      pub same : view out.0 out.1 ≡ view h a
      pub fresh : Between (length h) (length out.0) (reach out.0 out.1)

    -- `DeepCopyInto` copies every value of the heap.
    abbrev pub CopiesInto : (A → Heap K M L → Heap K M L × A) → Type 0
    CopiesInto into =
        (h : Heap K M L) (a : A) → Below (length h) (reach h a) → IsCopy h a (into a h)

    pub unmoved :
        (h h' : Heap K M L) (a : A)
        → Grows h h'
        → Below (length h) (reach h a)
        → All (SameCell h h') (reach h a)
    unmoved h h' a g below =
        All-mono (λ i. i < length h) (SameCell h h') (λ i small. g.same i small) (reach h a) below

    module _ (local : IsLocal) where
      -- A copy stays one while the heap grows.
      pub IsCopy-keep :
          (h h₁ h₂ : Heap K M L) (a b : A) → IsCopy h a (h₁, b) → Grows h₁ h₂ → IsCopy h a (h₂, b)
      IsCopy-keep h h₁ h₂ a b c g =
          let below =
            All-mono (λ i. (length h ≤ i) × (i < length h₁)) (λ i. i < length h₁) (λ i k. k.1)
              (reach h₁ b) c.fresh in
          let still = unmoved h₁ h₂ b g below in
          record {
            grows = Grows-trans h h₁ h₂ c.grows g;
            same = local.view_local h₁ h₂ b still ∙ c.same;
            fresh = rw (local.reach_local h₁ h₂ b still) (
                All-mono (λ i. (length h ≤ i) × (i < length h₁))
                  (λ i. (length h ≤ i) × (i < length h₂))
                  (λ i k. let l = g.longer in (k.0, omega (arith, k.1, l))) (reach h₁ b) c.fresh);
          }

      -- A copy made later is a copy of what there was before.
      pub IsCopy-later :
          (h h₁ : Heap K M L) (a : A) (out : Heap K M L × A)
          → Grows h h₁
          → Below (length h) (reach h a)
          → IsCopy h₁ a out
          → IsCopy h a out
      IsCopy-later h h₁ a out g below c =
          let l = g.longer in
          record {
            grows = Grows-trans h h₁ out.0 g c.grows;
            same = c.same ∙ local.view_local h h₁ a (unmoved h h₁ a g below);
            fresh =
                All-mono (λ i. (length h₁ ≤ i) × (i < length out.0))
                  (λ i. (length h ≤ i) × (i < length out.0)) (λ i k. (omega (arith, k.0, l), k.1))
                  (reach out.0 out.1) c.fresh;
          }

      pub Below-Grows :
          (h h₁ : Heap K M L) (a : A)
          → Grows h h₁
          → Below (length h) (reach h a)
          → Below (length h₁) (reach h₁ a)
      Below-Grows h h₁ a g below =
          let l = g.longer in
          rw (local.reach_local h h₁ a (unmoved h h₁ a g below)) (
            All-mono (λ i. i < length h) (λ i. i < length h₁) (λ i k. omega (arith, k, l))
              (reach h a) below)
