-- ===== src/Controller/Initial/Shares.antt =====
-- The sums and the whole shares of `initialWeights`, as natural numbers.
use native.Mathlib.Nat.{
  div-add-mod, mod-lt, mul-le-mul_left, mul-le-mul_right, le_of_mul-le-mul_left,
}
use traficctl.Prelude.{
  ℕ, ◌+◌, ◌-◌, ◌*◌, ◌/◌, ◌^◌, ◌≤◌, ◌<◌, ◌≡◌, refl, List, [], ◌∷◌, arith, ◌∙◌, ap, inl, inr,
}
use traficctl.Prelude.Tests.{Bool-cases, if◌then◌else◌, ltb}
use traficctl.Prelude.Int.{
  ℤ, pos, negsuc, pos_part, neg_part, ◌+ℤ◌, ◌-ℤ◌, ◌≤ℤ◌, add32, sub32, wrap32,
}
use traficctl.Prelude.Float.{Float, TruncatesShares}
use traficctl.Prelude.Lists.{All}
use traficctl.Prelude.Sort.{sum_by}
use traficctl.Api.Types.{Backend}
use traficctl.Api.Schema.{InSchema}
use traficctl.Controller.Initial.{
  headroom, used_from, total_head_from, whole_share, whole_weight, assigned_from, exact_share,
}

-- A backend of the schema whose bounds are in order.
pub record Sane (b : Backend) : Type 0 where
  pub schema : InSchema b
  pub ordered : b.min_weight ≤ℤ b.max_weight

abbrev pub low : Backend → ℕ
low b = pos_part b.min_weight

abbrev pub room : Backend → ℕ
room b = pos_part b.max_weight - pos_part b.min_weight

-- The whole share of a backend, of `r` points over a room of `h` in all.
abbrev pub quota : ℕ → ℕ → Backend → ℕ
quota r h b = r * room b / h

-- 1 if the whole share leaves room.
abbrev pub spare : ℕ → ℕ → Backend → ℕ
spare r h b = if ltb (quota r h b) (room b) then 1 else 0

module _ (r h : ℕ) (fits : r ≤ h) (some_room : 0 < h) where
  quota_low : (b : Backend) → h * quota r h b ≤ r * room b
  quota_low b = omega (arith, div-add-mod (r * room b) h)

  pub quota_le : (b : Backend) → quota r h b ≤ room b
  quota_le b =
      le_of_mul-le-mul_left {k = h} (omega (arith, quota_low b, mul-le-mul_right (room b) fits))
        some_room

  quota_high : (b : Backend) → r * room b ≤ h * quota r h b + h * spare r h b
  quota_high b = elim (Bool-cases (ltb (quota r h b) (room b))) [
    | inl e ↦ rw e (omega (arith, div-add-mod (r * room b) h, mod-lt (r * room b) some_room))
    | inr e ↦
        let full : room b ≤ quota r h b = ground arith in
        rw e (omega (arith, mul-le-mul_left h full, mul-le-mul_right (room b) fits))
  ]

  sum_low : (bs : List Backend) → h * sum_by (quota r h) bs ≤ r * sum_by room bs
  sum_low [] = omega arith
  sum_low (b ∷ bs) = omega (arith, quota_low b, sum_low bs)

  sum_high :
      (bs : List Backend)
      → r * sum_by room bs ≤ h * sum_by (quota r h) bs + h * sum_by (spare r h) bs
  sum_high [] = omega arith
  sum_high (b ∷ bs) = omega (arith, quota_high b, sum_high bs)

  -- The whole shares are at most the points, and what is left is at most the backends with room.
  pub quotas :
      (bs : List Backend)
      → sum_by room bs ≡ h
      → (sum_by (quota r h) bs ≤ r) × (r ≤ sum_by (quota r h) bs + sum_by (spare r h) bs)
  quotas bs e =
      let below = sum_low bs in
      let above = sum_high bs in
      (
        le_of_mul-le-mul_left {k = h} (omega (arith, rw e at below)) some_room,
        le_of_mul-le-mul_left {k = h} (omega (arith, rw e at above)) some_room,
      )

pub add32_nat :
    (a : ℕ) (z : ℤ) → pos 0 ≤ℤ z → a + pos_part z < 2 ^ 31 → add32 (pos a) z ≡ pos (a + pos_part z)
unfolding wrap32 ◌+ℤ◌
add32_nat a (pos n) h k = ground arith
add32_nat a (negsuc n) h k = absurd (omega arith)

pub nonneg_eq : (z : ℤ) → pos 0 ≤ℤ z → z ≡ pos (pos_part z)
nonneg_eq (pos n) h = refl
nonneg_eq (negsuc n) h = absurd (omega arith)

pub sub32_small : (a b : ℕ) → a < 2 ^ 31 → b ≤ a → sub32 (pos a) (pos b) ≡ pos (a - b)
unfolding wrap32 ◌-ℤ◌
sub32_small a b h k = ground arith

pub Sane-low : (b : Backend) → Sane b → b.min_weight ≡ pos (low b)
Sane-low b s = let (lo, lo', hi, hi') = s.schema in nonneg_eq b.min_weight lo

pub Sane-bounds : (b : Backend) → Sane b → low b + room b ≤ 100
Sane-bounds b s =
    let (lo, lo', hi, hi') = s.schema in
    let o = s.ordered in
    omega (arith, ap neg_part (nonneg_eq b.min_weight lo), ap neg_part (nonneg_eq b.max_weight hi))

pub max_value : (b : Backend) → Sane b → b.max_weight ≡ pos (low b + room b)
max_value b s =
    let (lo, lo', hi, hi') = s.schema in
    let o = s.ordered in
    let n = ap neg_part (nonneg_eq b.min_weight lo) in
    let x = ap neg_part (nonneg_eq b.max_weight hi) in
    nonneg_eq b.max_weight hi ∙ ap pos (omega (arith, n, x))

pub Sane-headroom : (b : Backend) → Sane b → headroom b ≡ pos (room b)
Sane-headroom b s =
    let (lo, lo', hi, hi') = s.schema in
    let o = s.ordered in
    let n = ap neg_part (nonneg_eq b.min_weight lo) in
    let x = ap neg_part (nonneg_eq b.max_weight hi) in
    rw (nonneg_eq b.min_weight lo, nonneg_eq b.max_weight hi)
      (sub32_small (pos_part b.max_weight) (pos_part b.min_weight) (omega (arith, n, x))
        (omega (arith, n, x)))

pub used_from_lem :
    (a : ℕ) (bs : List Backend)
    → All Sane bs
    → a + sum_by low bs < 2 ^ 31
    → used_from (pos a) bs ≡ pos (a + sum_by low bs)
unfolding used_from
used_from_lem a [] s h = ap pos (omega arith)
used_from_lem a (b ∷ bs) (s, ss) h =
    let (lo, lo', hi, hi') = s.schema in
    rw (add32_nat a b.min_weight lo (omega arith))
      (used_from_lem (a + low b) bs ss (omega arith) ∙ ap pos (omega arith))

pub total_head_from_lem :
    (a : ℕ) (bs : List Backend)
    → All Sane bs
    → a + sum_by room bs < 2 ^ 31
    → total_head_from (pos a) bs ≡ pos (a + sum_by room bs)
unfolding total_head_from
total_head_from_lem a [] s h = ap pos (omega arith)
total_head_from_lem a (b ∷ bs) (s, ss) h =
    rw (Sane-headroom b s, add32_nat a (pos (room b)) (omega arith) (omega arith))
      (total_head_from_lem (a + room b) bs ss (omega arith) ∙ ap pos (omega arith))

module _ {F : Type 0} ⦃fl : Float F⦄ (law : TruncatesShares F) (r h : ℕ) (fits : r ≤ h)
    (some_room : 0 < h) (points : r ≤ 100) (small : h < 2 ^ 31) where
  whole_share_lem : (b : Backend) → Sane b → whole_share F (pos r) (pos h) b ≡ pos (quota r h b)
  unfolding whole_share exact_share
  whole_share_lem b s =
      rw (Sane-headroom b s, whole_share, exact_share)
        (law.truncates r (room b) h points (omega (arith, Sane-bounds b s)) some_room small)

  pub assigned_from_lem :
      (a : ℕ) (bs : List Backend)
      → All Sane bs
      → a + sum_by (quota r h) bs < 2 ^ 31
      → assigned_from F (pos r) (pos h) (pos a) bs ≡ pos (a + sum_by (quota r h) bs)
  unfolding assigned_from
  assigned_from_lem a [] s k = ap pos (omega arith)
  assigned_from_lem a (b ∷ bs) (s, ss) k =
      rw (whole_share_lem b s, add32_nat a (pos (quota r h b)) (omega arith) (omega arith))
        (assigned_from_lem (a + quota r h b) bs ss (omega arith) ∙ ap pos (omega arith))

  pub weight_value :
      (b : Backend) → Sane b → (whole_weight F (pos r) (pos h) b).weight ≡ pos (low b + quota r h b)
  unfolding whole_weight
  weight_value b s =
      let bounds = Sane-bounds b s in
      let le = quota_le r h fits some_room b in
      rw (whole_share_lem b s, Sane-low b s)
        (add32_nat (low b) (pos (quota r h b)) (omega arith) (omega arith))
