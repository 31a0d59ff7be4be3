-- ===== src/Prelude/Lists.antt =====
-- Lists measured and indexed by native numbers, under the library's names, and predicates on lists.
use Prim.Native.Nat.{ℕ, zero, suc, ◌+◌}
use mathlib.Core.Path.{◌≡◌, refl, ap}
use mathlib.Core.Logic.{◌≢◌, ◌↔◌, ◌⊎◌, inl, inr}
use mathlib.Core.List.{List, [], ◌∷◌, ◌++◌, map, reverse_aux}
use mathlib.Core.Option.{Option, none, some}
use Prim.Native.String.{String}
use native.Mathlib.Omega.{arith}

module _ {ℓ} {A : Type ℓ} where
  abbrev pub length : List A → ℕ
  length [] = 0
  length (x ∷ xs) = suc (length xs)

  abbrev pub get_elem? : List A → ℕ → Option A
  get_elem? [] i = none
  get_elem? (x ∷ xs) zero = some x
  get_elem? (x ∷ xs) (suc i) = get_elem? xs i

  -- A write through a pointer into the list; out of range it changes nothing.
  abbrev pub modify : ℕ → (A → A) → List A → List A
  modify i f [] = []
  modify zero f (x ∷ xs) = f x ∷ xs
  modify (suc i) f (x ∷ xs) = x ∷ modify i f xs

  abbrev pub drop : ℕ → List A → List A
  drop zero xs = xs
  drop (suc n) [] = []
  drop (suc n) (x ∷ xs) = drop n xs

  abbrev pub All {κ} : (A → Type κ) → List A → Type κ
  All P [] = Unit
  All P (x ∷ xs) = P x × All P xs

  pub length-append : (xs ys : List A) → length (xs ++ ys) ≡ length xs + length ys
  length-append [] ys = omega arith
  length-append (x ∷ xs) ys = omega (arith, length-append xs ys)

  pub All-append {κ} : (P : A → Type κ) (xs ys : List A) → All P xs → All P ys → All P (xs ++ ys)
  All-append P [] ys _ q = q
  All-append P (x ∷ xs) ys (p, ps) q = (p, All-append P xs ys ps q)

  pub All-append_inv {κ} :
      (P : A → Type κ) (xs ys : List A) → All P (xs ++ ys) → All P xs × All P ys
  All-append_inv P [] ys q = (tt, q)
  All-append_inv P (x ∷ xs) ys (p, ps) = let (l, r) = All-append_inv P xs ys ps in ((p, l), r)

  pub All-reverse_aux {κ} :
      (P : A → Type κ) (xs acc : List A) → All P (reverse_aux xs acc) ↔ (All P xs × All P acc)
  All-reverse_aux P [] acc = (λ h. (tt, h), λ h. h.1)
  All-reverse_aux P (x ∷ xs) acc =
      let ih = All-reverse_aux P xs (x ∷ acc) in
      (λ h. let (l, (p, r)) = ih.0 h in ((p, l), r), λ ((p, l), r). ih.1 (l, (p, r)))

  pub All-mono {κ} :
      (P Q : A → Type κ) → ((a : A) → P a → Q a) → (xs : List A) → All P xs → All Q xs
  All-mono P Q f [] _ = tt
  All-mono P Q f (x ∷ xs) (p, ps) = (f x p, All-mono P Q f xs ps)

  -- A predicate survives a write that keeps it at the element written.
  pub All-modify {κ} :
      (P : A → Type κ) (i : ℕ) (f : A → A) (xs : List A)
      → ((a : A) → get_elem? xs i ≡ some a → P a → P (f a))
      → All P xs
      → All P (modify i f xs)
  All-modify P i f [] keep all = tt
  All-modify P zero f (x ∷ xs) keep (p, ps) = (keep x refl p, ps)
  All-modify P (suc i) f (x ∷ xs) keep (p, ps) = (p, All-modify P i f xs keep ps)

  pub get_elem?-modify_self :
      (i : ℕ) (f : A → A) (xs : List A) (a : A)
      → get_elem? xs i ≡ some a
      → get_elem? (modify i f xs) i ≡ some (f a)
  get_elem?-modify_self i f [] a h = cc
  get_elem?-modify_self zero f (x ∷ xs) a h = cc
  get_elem?-modify_self (suc i) f (x ∷ xs) a h = get_elem?-modify_self i f xs a h

  pub get_elem?-modify_ne :
      (i j : ℕ) (f : A → A) (xs : List A) → i ≢ j → get_elem? (modify i f xs) j ≡ get_elem? xs j
  get_elem?-modify_ne i j f [] h = refl
  get_elem?-modify_ne zero zero f (x ∷ xs) h = absurd (h refl)
  get_elem?-modify_ne zero (suc j) f (x ∷ xs) h = refl
  get_elem?-modify_ne (suc i) zero f (x ∷ xs) h = refl
  get_elem?-modify_ne (suc i) (suc j) f (x ∷ xs) h = get_elem?-modify_ne i j f xs λ e. h (ap suc e)

  pub length-modify : (i : ℕ) (f : A → A) (xs : List A) → length (modify i f xs) ≡ length xs
  length-modify i f [] = refl
  length-modify zero f (x ∷ xs) = refl
  length-modify (suc i) f (x ∷ xs) = ap suc (length-modify i f xs)

module _ {ℓ κ} {A : Type ℓ} {B : Type κ} where
  pub length-map : (xs : List A) (f : A → B) → length (map f xs) ≡ length xs
  length-map [] f = refl
  length-map (x ∷ xs) f = ap suc (length-map xs f)

  -- Two lists of one length, related place by place.
  abbrev pub All₂ : (A → B → Type 0) → List A → List B → Type 0
  All₂ R [] [] = Unit
  All₂ R (x ∷ xs) (y ∷ ys) = R x y × All₂ R xs ys
  All₂ R _ _ = ⊥

module _ {ℓ κ μ} {A : Type ℓ} {B : Type κ} {C : Type μ} where
  abbrev pub All₃ : (A → B → C → Type 0) → List A → List B → List C → Type 0
  All₃ R [] [] [] = Unit
  All₃ R (x ∷ xs) (y ∷ ys) (z ∷ zs) = R x y z × All₃ R xs ys zs
  All₃ R _ _ _ = ⊥

module _ {ℓ} {A : Type ℓ} where
  -- No two elements have one key.
  abbrev pub Distinct : (A → String) → List A → Type 0
  Distinct key [] = Unit
  Distinct key (x ∷ xs) = All (λ y. key y ≢ key x) xs × Distinct key xs

module _ {ℓ} {A : Type ℓ} where
  pub All₂-diag :
      (P : A → Type 0) (R : A → A → Type 0)
      → ((a : A) → P a → R a a)
      → (xs : List A) → All P xs
      → All₂ R xs xs
  All₂-diag P R r [] all = tt
  All₂-diag P R r (x ∷ xs) (p, ps) = (r x p, All₂-diag P R r xs ps)

  pub All₂-modify {κ} :
      {B : Type κ} (R : B → A → Type 0) (i : ℕ) (f : A → A) (xs : List B) (ys : List A)
      → ((b : B) (a : A) → get_elem? xs i ≡ some b → get_elem? ys i ≡ some a → R b a → R b (f a))
      → All₂ R xs ys
      → All₂ R xs (modify i f ys)
  All₂-modify R i f [] [] keep all = tt
  All₂-modify R zero f (x ∷ xs) (y ∷ ys) keep (p, ps) = (keep x y refl refl p, ps)
  All₂-modify R (suc i) f (x ∷ xs) (y ∷ ys) keep (p, ps) = (p, All₂-modify R i f xs ys keep ps)
  All₂-modify R i f [] (y ∷ ys) keep all = elim all [ ]
  All₂-modify R i f (x ∷ xs) [] keep all = elim all [ ]

module _ {ℓ κ} {A : Type ℓ} {B : Type κ} where
  -- At a place, two related lists both end before it, or both have an element there.
  pub get_elem?-All₂ :
      (R : A → B → Type 0) (xs : List A) (ys : List B) (i : ℕ)
      → All₂ R xs ys
      → ((get_elem? xs i ≡ none) × (get_elem? ys i ≡ none))
        ⊎ ((x : A) × (y : B) × (get_elem? xs i ≡ some x) × (get_elem? ys i ≡ some y) × R x y)
  get_elem?-All₂ R [] [] i all = inl (refl, refl)
  get_elem?-All₂ R (x ∷ xs) (y ∷ ys) zero all = inr (x, y, refl, refl, all.0)
  get_elem?-All₂ R (x ∷ xs) (y ∷ ys) (suc i) all = get_elem?-All₂ R xs ys i all.1
  get_elem?-All₂ R [] (y ∷ ys) i all = elim all [ ]
  get_elem?-All₂ R (x ∷ xs) [] i all = elim all [ ]
