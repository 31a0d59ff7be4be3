-- ===== src/Prelude/Results.antt =====
-- Go's `(value, error)` results, for `do` blocks.
use Prim.Native.String.{String}
use mathlib.Core.Path.{◌≡◌, refl}
use mathlib.Core.Logic.{◌⊎◌, inl, inr}
use mathlib.Core.Bool.{Bool, true, false}

pub data Result {ℓ} (A : Type ℓ) : Type ℓ where
  ok : A → Result A
  fails : String → Result A

infixl 5 ◌>>=◌ ◌>>◌
abbrev pub ◌>>=◌ {ℓ κ} : {A : Type ℓ} {B : Type κ} → Result A → (A → Result B) → Result B
ok a >>= f = f a
fails e >>= f = fails e

abbrev pub ◌>>◌ {ℓ} : {B : Type ℓ} → Result (Unit {0}) → Result B → Result B
m >> k = m >>= λ _. k

-- `if bad { return nil, err }`
abbrev pub fail_if : Bool → String → Result (Unit {0})
fail_if true e = fails e
fail_if false e = ok tt

-- `fmt.Errorf("…: %w", err)`
abbrev pub wrap_error {ℓ} : {A : Type ℓ} → (String → String) → Result A → Result A
wrap_error f (ok a) = ok a
wrap_error f (fails e) = fails (f e)

pub Result-cases {ℓ} :
    {A : Type ℓ} (r : Result A) → ((a : A) × (r ≡ ok a)) ⊎ ((e : String) × (r ≡ fails e))
Result-cases (ok a) = inl (a, refl)
Result-cases (fails e) = inr (e, refl)

-- A chain that succeeds has succeeded at its first step.
pub >>=-eq-ok {ℓ κ} :
    {A : Type ℓ} {B : Type κ} (m : Result A) (f : A → Result B) (b : B)
    → (m >>= f) ≡ ok b
    → (a : A) × (m ≡ ok a) × (f a ≡ ok b)
>>=-eq-ok (ok a) f b h = (a, refl, h)
>>=-eq-ok (fails e) f b h = cc

pub fail_if-eq-ok {ℓ} :
    {B : Type ℓ} (c : Bool) (e : String) (k : Result B) (b : B)
    → (fail_if c e >> k) ≡ ok b
    → (c ≡ false) × (k ≡ ok b)
fail_if-eq-ok true e k b h = cc
fail_if-eq-ok false e k b h = (refl, h)

pub wrap_error-eq-ok {ℓ} :
    {A : Type ℓ} (f : String → String) (r : Result A) (a : A) → wrap_error f r ≡ ok a → r ≡ ok a
wrap_error-eq-ok f (ok x) a h = h
wrap_error-eq-ok f (fails e) a h = cc

pub ok-injective {ℓ} : {A : Type ℓ} {a b : A} → ok a ≡ ok b → a ≡ b
ok-injective h = cc
