-- ===== src/Api/DeepCopy/Kinds.antt =====
-- Kinds of values on the heap: what they read as, which cells they reach, and how they are copied.
use traficctl.Prelude.{ℕ, ◌≡◌, refl, ◌∙◌, ap, ap₂, List, [], ◌∷◌, ◌++◌, Option, some}
use traficctl.Prelude.Lists.{All, All-append_inv}
use traficctl.Api.DeepCopy.{deep_copy}
use traficctl.Api.DeepCopy.Cells.{Cell, Heap}
use traficctl.Api.DeepCopy.Copying.{SameCell, IsLocal, CopiesInto}
use traficctl.Api.DeepCopy.Pointers.{
  view_at, reach_at, at-IsLocal, deep-CopiesInto, plain, no_cells, plain-IsLocal,
}
use traficctl.Api.DeepCopy.Pairs.{Two, view_two, reach_two, two_into, two-IsLocal, two-CopiesInto}

pub record Kind (K M L A V : Type 0) : Type 0 where
  pub view : Heap K M L → A → V
  pub cells : Heap K M L → A → List ℕ
  pub local : IsLocal view cells

-- The function copies every value of the kind.
abbrev pub Copied :
    {K M L A V : Type 0} → Kind K M L A V → (A → Heap K M L → Heap K M L × A) → Type 0
Copied k into = CopiesInto k.view k.cells into

module _ {K M L : Type 0} where
  abbrev pub plain_kind : {A : Type 0} → Kind K M L A A
  plain_kind = record { view = plain; cells = no_cells; local = plain-IsLocal }

  abbrev pub pointer :
      {A V : Type 0} → (Option (Cell K M L) → A) → Kind K M L A V → Kind K M L (Option ℕ) (Option V)
  pointer contents k = record {
    view = view_at contents k.view k.cells;
    cells = reach_at contents k.view k.cells;
    local = at-IsLocal contents k.view k.cells k.local;
  }

  abbrev pub both :
      {A V B U : Type 0} → Kind K M L A V → Kind K M L B U → Kind K M L (Two A B) (Two V U)
  both k k' = record {
    view = view_two k.view k.cells k'.view k'.cells;
    cells = reach_two k.view k.cells k'.view k'.cells;
    local = two-IsLocal k.view k.cells k'.view k'.cells k.local k'.local;
  }

  -- A struct reads as its pointers do, with what else it holds.
  abbrev pub struct : {S P V U : Type 0} → (S → P) → (S → V → U) → Kind K M L P V → Kind K M L S U
  struct parts value k = record {
    view = λ h s. value s (k.view h (parts s));
    cells = λ h s. k.cells h (parts s);
    local = record {
      view_local = λ h h' s all. ap (value s) (k.local.view_local h h' (parts s) all);
      reach_local = λ h h' s all. k.local.reach_local h h' (parts s) all;
    };
  }

  pub pointer-Copied :
      {A V : Type 0} (contents : Option (Cell K M L) → A) (k : Kind K M L A V)
      (wrap : A → Cell K M L) (into : A → Heap K M L → Heap K M L × A)
      → ((a : A) → contents (some (wrap a)) ≡ a)
      → Copied k into
      → Copied (pointer contents k) (λ o h. deep_copy wrap contents into o h)
  pointer-Copied contents k wrap into back copies =
      deep-CopiesInto contents k.view k.cells k.local wrap into back copies

  pub both-Copied :
      {A V B U : Type 0} (k : Kind K M L A V) (k' : Kind K M L B U)
      (into : A → Heap K M L → Heap K M L × A) (into' : B → Heap K M L → Heap K M L × B)
      → Copied k into
      → Copied k' into'
      → Copied (both k k') (two_into k.view k.cells k'.view k'.cells into into')
  both-Copied k k' into into' copies copies' =
      two-CopiesInto k.view k.cells k'.view k'.cells k.local k'.local into into' copies copies'

  -- A struct is copied by copying its pointers, if the rest of the copy is that of the struct.
  pub struct-Copied :
      {S P V U : Type 0} (parts : S → P) (value : S → V → U) (k : Kind K M L P V)
      (into : P → Heap K M L → Heap K M L × P) (put : S → P → S)
      → ((s : S) (p : P) → parts (put s p) ≡ p)
      → ((s : S) (p : P) (v : V) → value (put s p) v ≡ value s v)
      → Copied k into
      → Copied (struct parts value k) (λ s h. let (h₁, p) = into (parts s) h in (h₁, put s p))
  struct-Copied parts value k into put there rest copies h s below =
      let c = copies h (parts s) below in
      let h₁ = (into (parts s) h).0 in
      let p = (into (parts s) h).1 in
      record {
        grows = c.grows;
        same = rest s p _ ∙ ap (value s) (ap (k.view h₁) (there s p) ∙ c.same);
        fresh = rw (there s p) c.fresh;
      }

  module _ {A V : Type 0} (k : Kind K M L A V) where
    abbrev pub view_each : Heap K M L → List A → List V
    view_each h [] = []
    view_each h (a ∷ xs) = k.view h a ∷ view_each h xs

    abbrev pub cells_each : Heap K M L → List A → List ℕ
    cells_each h [] = []
    cells_each h (a ∷ xs) = k.cells h a ++ cells_each h xs

    pub each-view_local :
        (h h' : Heap K M L) (xs : List A)
        → All (SameCell h h') (cells_each h xs)
        → view_each h' xs ≡ view_each h xs
    each-view_local h h' [] all = refl
    each-view_local h h' (a ∷ xs) all =
        let (l, r) = All-append_inv (SameCell h h') (k.cells h a) (cells_each h xs) all in
        ap₂ ◌∷◌ (k.local.view_local h h' a l) (each-view_local h h' xs r)

    pub each-reach_local :
        (h h' : Heap K M L) (xs : List A)
        → All (SameCell h h') (cells_each h xs)
        → cells_each h' xs ≡ cells_each h xs
    each-reach_local h h' [] all = refl
    each-reach_local h h' (a ∷ xs) all =
        let (l, r) = All-append_inv (SameCell h h') (k.cells h a) (cells_each h xs) all in
        ap₂ ◌++◌ (k.local.reach_local h h' a l) (each-reach_local h h' xs r)

    -- An array of values of the kind.
    abbrev pub each : Kind K M L (List A) (List V)
    each = record {
      view = view_each;
      cells = cells_each;
      local = record { view_local = each-view_local; reach_local = each-reach_local };
    }
