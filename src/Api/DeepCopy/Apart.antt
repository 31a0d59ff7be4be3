-- ===== src/Api/DeepCopy/Apart.antt =====
-- A deep copy and what it copies share no cell: writes through one do not show in the other.
use traficctl.Prelude.{ℕ, ◌≡◌, ◌<◌, ◌≤◌, ◌≢◌, refl, ◌∙◌, List, [], ◌∷◌, Option, none, some, arith}
use traficctl.Prelude.Lists.{length, modify, All, All-mono, get_elem?-modify_ne}
use traficctl.Api.DeepCopy.{
  Machinery, Copies, copy_policy, copy_policy_object, copy_list, copy_list_object, policy_at,
  list_at, as_object,
}
use traficctl.Api.DeepCopy.Cells.{Cell, Heap, policy_cell, list_cell}
use traficctl.Api.DeepCopy.Copying.{SameCell, IsCopy, Below, Between}
use traficctl.Api.DeepCopy.Kinds.{Kind, pointer, pointer-Copied}
use traficctl.Api.DeepCopy.Laws.{policy-Copied, list-Copied}
use traficctl.Api.DeepCopy.Views.{policy_kind, list_kind, PolicyValue, ListValue}

-- An assignment through a pointer or into a slice.
pub record Write (K M L : Type 0) : Type 0 where
  pub target : ℕ
  pub cell : Cell K M L

module _ {K M L : Type 0} where
  abbrev pub write_all : List (Write K M L) → Heap K M L → Heap K M L
  write_all [] h = h
  write_all (w ∷ ws) h = write_all ws (modify w.target (λ _. w.cell) h)

  write_all-get_elem? :
      (ws : List (Write K M L)) (h : Heap K M L) (i : ℕ)
      → All (λ w. w.target ≢ i) ws
      → SameCell h (write_all ws h) i
  write_all-get_elem? [] h i all = refl
  write_all-get_elem? (w ∷ ws) h i (other, all) =
      write_all-get_elem? ws (modify w.target (λ _. w.cell) h) i all
      ∙ get_elem?-modify_ne w.target i (λ _. w.cell) h other

  -- The copy reads as the original; every cell that it reaches is new; it reads the same whatever is
  -- written afterwards to the cells that there were, and the original reads the same whatever is written
  -- to the new ones.
  pub record Apart {A V : Type 0} (k : Kind K M L A V) (h : Heap K M L) (a : A)
      (out : Heap K M L × A) : Type 0 where
    pub reads_same : k.view out.0 out.1 ≡ k.view h a
    pub all_new : Between (length h) (length out.0) (k.cells out.0 out.1)
    pub copy_kept :
        (ws : List (Write K M L))
        → All (λ w. w.target < length h) ws
        → k.view (write_all ws out.0) out.1 ≡ k.view h a
    pub original_kept :
        (ws : List (Write K M L))
        → All (λ w. length h ≤ w.target) ws
        → k.view (write_all ws out.0) a ≡ k.view h a

  IsCopy-Apart :
      {A V : Type 0} (k : Kind K M L A V) (h : Heap K M L) (a : A) (out : Heap K M L × A)
      → Below (length h) (k.cells h a)
      → IsCopy k.view k.cells h a out
      → Apart k h a out
  IsCopy-Apart k h a out below c = record {
    reads_same = c.same;
    all_new = c.fresh;
    copy_kept = λ ws old.
        k.local.view_local out.0 (write_all ws out.0) out.1 (
          All-mono _ _
            (λ i new.
              write_all-get_elem? ws out.0 i
                (All-mono _ _ (λ w small e. absurd (omega (arith, new.0, small, e))) ws old))
            (k.cells out.0 out.1) c.fresh)
        ∙ c.same;
    original_kept = λ ws new. k.local.view_local h (write_all ws out.0) a (
        All-mono _ _
          (λ i small.
            write_all-get_elem? ws out.0 i
              (All-mono _ _ (λ w large e. absurd (omega (arith, large, small, e))) ws new)
            ∙ c.grows.same i small)
          (k.cells h a) below);
  }

  as_object_same : (out : Heap K M L × Option ℕ) → as_object out ≡ out
  as_object_same (h, none) = refl
  as_object_same (h, some p) = refl

module _ {K M L : Type 0} (lib : Machinery K M L) where
  -- A pointer to a policy, and one to a list of policies.
  abbrev pub policy_pointer : Kind K M L (Option ℕ) (Option (PolicyValue K M))
  policy_pointer = pointer (policy_at lib) policy_kind

  abbrev pub list_pointer : Kind K M L (Option ℕ) (Option (ListValue K M L))
  list_pointer = pointer (list_at lib) list_kind

  module _ (law : Copies lib) where
    -- If the deep copies of the API machinery copy: a deep copy of a policy, nil or not, whose pointers and
    -- slices lead to cells of the heap, reads as the policy does, down to which slices are nil; all its cells
    -- are new; no write to the cells that there were changes what it reads as, and no write to the new ones
    -- changes what the policy reads as. `DeepCopyObject` gives the same copy.
    pub copy_policy-Apart :
        (h : Heap K M L) (p : Option ℕ)
        → Below (length h) (policy_pointer.cells h p)
        → Apart policy_pointer h p (copy_policy lib p h)
          × (copy_policy_object lib p h ≡ copy_policy lib p h)
    unfolding copy_policy copy_policy_object
    copy_policy-Apart h p below = (
      IsCopy-Apart policy_pointer h p (copy_policy lib p h) below (
          pointer-Copied (policy_at lib) policy_kind policy_cell _ (λ a. refl)
            (policy-Copied lib law) h p below),
      as_object_same (copy_policy lib p h),
    )

    -- The same for a list of policies.
    pub copy_list-Apart :
        (h : Heap K M L) (l : Option ℕ)
        → Below (length h) (list_pointer.cells h l)
        → Apart list_pointer h l (copy_list lib l h)
          × (copy_list_object lib l h ≡ copy_list lib l h)
    unfolding copy_list copy_list_object
    copy_list-Apart h l below = (
      IsCopy-Apart list_pointer h l (copy_list lib l h) below (
          pointer-Copied (list_at lib) list_kind list_cell _ (λ a. refl) (list-Copied lib law) h l
            below),
      as_object_same (copy_list lib l h),
    )
