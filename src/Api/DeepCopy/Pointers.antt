-- ===== src/Api/DeepCopy/Pointers.antt =====
-- `DeepCopy` copies what a pointer or a slice leads to, if `DeepCopyInto` copies the contents.
use traficctl.Prelude.{ℕ, ◌+◌, ◌≡◌, refl, ◌∙◌, ap, List, [], ◌∷◌, ◌++◌, Option, none, some, arith}
use traficctl.Prelude.Lists.{length, get_elem?, All, length-append}
use traficctl.Api.DeepCopy.{deep_copy}
use traficctl.Api.DeepCopy.Cells.{Cell, Heap}
use traficctl.Api.DeepCopy.Copying.{
  SameCell, Grows-refl, Grows-trans, Grows-append, get_elem?-last, IsLocal, CopiesInto, IsCopy-keep,
}

module _ {K M L A V : Type 0} (contents : Option (Cell K M L) → A) (view : Heap K M L → A → V)
    (reach : Heap K M L → A → List ℕ) where
  -- What a pointer reads as, `none` if it is nil, and the cells that it reaches.
  abbrev pub view_at : Heap K M L → Option ℕ → Option V
  view_at h none = none
  view_at h (some p) = some (view h (contents (get_elem? h p)))

  abbrev pub reach_at : Heap K M L → Option ℕ → List ℕ
  reach_at h none = []
  reach_at h (some p) = p ∷ reach h (contents (get_elem? h p))

  module _ (local : IsLocal view reach) where
    pub at-IsLocal : IsLocal view_at reach_at
    at-IsLocal = record { view_local = seen; reach_local = reached }
      where
        seen :
            (h h' : Heap K M L) (o : Option ℕ)
            → All (SameCell h h') (reach_at h o)
            → view_at h' o ≡ view_at h o
        seen h h' none all = refl
        seen h h' (some p) (here, all) = rw here (ap some (local.view_local h h' _ all))

        reached :
            (h h' : Heap K M L) (o : Option ℕ)
            → All (SameCell h h') (reach_at h o)
            → reach_at h' o ≡ reach_at h o
        reached h h' none all = refl
        reached h h' (some p) (here, all) = rw here (ap (◌∷◌ p) (local.reach_local h h' _ all))

    pub deep-CopiesInto :
        (wrap : A → Cell K M L) (into : A → Heap K M L → Heap K M L × A)
        → ((a : A) → contents (some (wrap a)) ≡ a)
        → CopiesInto view reach into
        → CopiesInto view_at reach_at (λ o h. deep_copy wrap contents into o h)
    unfolding deep_copy
    deep-CopiesInto wrap into back copies h none below = record {
      grows = Grows-refl h;
      same = refl;
      fresh = tt;
    }
    deep-CopiesInto wrap into back copies h (some p) (small, below) =
        let a = contents (get_elem? h p) in
        let c = copies h a below in
        let h₁ = (into a h).0 in
        let b = (into a h).1 in
        let h₂ = h₁ ++ (wrap b ∷ []) in
        let more = Grows-append h₁ (wrap b ∷ []) in
        let kept = IsCopy-keep view reach local h h₁ h₂ a b c more in
        let there : contents (get_elem? h₂ (length h₁)) ≡ b =
          ap contents (get_elem?-last h₁ (wrap b)) ∙ back b in
        let long : length h₂ ≡ length h₁ + 1 = length-append h₁ (wrap b ∷ []) in
        let l = c.grows.longer in
        record {
          grows = Grows-trans h h₁ h₂ c.grows more;
          same = rw there (ap some kept.same);
          fresh = rw there ((l, omega (arith, long)), kept.fresh);
        }

module _ {K M L A : Type 0} where
  -- What holds no pointers reads as itself.
  abbrev pub plain : Heap K M L → A → A
  plain h a = a

  abbrev pub no_cells : Heap K M L → A → List ℕ
  no_cells h a = []

  pub plain-IsLocal : IsLocal plain no_cells
  plain-IsLocal = record { view_local = λ h h' a _. refl; reach_local = λ h h' a _. refl }

  pub plain-CopiesInto :
      (f : A → A) → ((a : A) → f a ≡ a) → CopiesInto plain no_cells (λ a h. (h, f a))
  plain-CopiesInto f same h a below = record { grows = Grows-refl h; same = same a; fresh = tt }
