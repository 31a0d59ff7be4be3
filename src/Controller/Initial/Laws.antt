-- ===== src/Controller/Initial/Laws.antt =====
-- `initialWeights` from a valid spec: within bounds, with a total of 100.
use traficctl.Prelude.{
  ℕ, suc, ◌+◌, ◌-◌, ◌^◌, ◌≤◌, ◌<◌, ◌≡◌, refl, List, [], ◌∷◌, map, arith, ◌∙◌, ap, inl, inr, ◌||◌,
}
use traficctl.Prelude.Tests.{Bool-cases, if◌then◌else◌, eqb}
use traficctl.Prelude.Int.{ℤ, pos, pos_part, neg_part, sub32, +ℤ_parts, eq_of_parts, eq_int, le_int}
use traficctl.Prelude.Float.{Float, TruncatesShares}
use traficctl.Prelude.Lists.{All, All₂}
use traficctl.Prelude.Sort.{sum_by, stable_sort, sum_by-stable_sort}
use traficctl.Api.Types.{Backend, BackendWeight}
use traficctl.Api.Schema.{Bounded, total_weight}
use traficctl.Controller.Initial.{
  used_from, total_head_from, whole_weight, assigned_from, shares_from, distribute, initial_weights,
  min_weight_of, more_left_over,
}
use traficctl.Controller.Initial.Points.{Placed, room_at, occurs, hand_out_lem}
use traficctl.Controller.Initial.Shares.{
  Sane, low, room, quota, spare, quotas, quota_le, sub32_small, Sane-low, used_from_lem,
  total_head_from_lem, assigned_from_lem, weight_value, max_value,
}

module _ (F : Type 0) ⦃fl : Float F⦄ where
  -- The places of the shares count up from the first.
  occurs-shares :
      (r h : ℤ) (i j : ℕ) (bs : List Backend)
      → (occurs i (shares_from F r h j bs) ≤ 1) × (i < j → occurs i (shares_from F r h j bs) ≡ 0)
  unfolding shares_from
  occurs-shares r h i j [] = (omega arith, λ _. refl)
  occurs-shares r h i j (b ∷ bs) =
      let (once, before) = occurs-shares r h i (suc j) bs in ground (arith, once, before)

module _ {F : Type 0} ⦃fl : Float F⦄ (law : TruncatesShares F) (r h : ℕ) (fits : r ≤ h)
    (some_room : 0 < h) (points : r ≤ 100) (small : h < 2 ^ 31) where
  abbrev wholes : List Backend → List BackendWeight
  wholes = map (whole_weight F (pos r) (pos h))

  whole_name : (b : Backend) → (whole_weight F (pos r) (pos h) b).name ≡ b.name
  unfolding whole_weight
  whole_name b = refl

  room_here : (b : Backend) → Sane b → room_at (b ∷ []) (wholes (b ∷ [])) 0 ≡ spare r h b
  room_here b s =
      let v = weight_value law r h fits some_room points small b s in
      let x = ap pos_part (max_value b s) in
      let n = ap neg_part (max_value b s) in rw v (ground (arith, x, n))

  wholes-Placed : (bs : List Backend) → All Sane bs → All₂ Placed bs (wholes bs)
  wholes-Placed [] s = tt
  wholes-Placed (b ∷ bs) (s, ss) =
      let v = weight_value law r h fits some_room points small b s in
      let le = quota_le r h fits some_room b in
      (
        record {
          schema = s.schema;
          bounded = record {
            name = whole_name b;
            above_min = rw v (omega arith);
            below_max =
                rw v (omega (arith, ap pos_part (max_value b s), ap neg_part (max_value b s)));
          };
        },
        wholes-Placed bs ss,
      )

  total_wholes :
      (bs : List Backend)
      → All Sane bs
      → total_weight (wholes bs) ≡ pos (sum_by low bs + sum_by (quota r h) bs)
  total_wholes [] s = refl
  total_wholes (b ∷ bs) (s, ss) =
      let v = weight_value law r h fits some_room points small b s in
      rw (v, total_wholes bs ss) (eq_of_parts _ _ (omega (arith, +ℤ_parts)))

  rooms_from :
      (f : ℕ → ℕ) (i : ℕ) (bs : List Backend)
      → All Sane bs
      → ((k : ℕ) → f (i + k) ≡ room_at bs (wholes bs) k)
      → sum_by (λ s. f s.idx) (shares_from F (pos r) (pos h) i bs) ≡ sum_by (spare r h) bs
  unfolding shares_from
  rooms_from f i [] s e = refl
  rooms_from f i (b ∷ bs) (s, ss) e =
      let here : f i ≡ spare r h b = ap f (omega arith) ∙ (e 0 ∙ room_here b s) in
      omega (arith, here, rooms_from f (suc i) bs ss (λ k. ap f (omega arith) ∙ e (suc k)))

  -- What is left fits into the backends with room.
  distribute-Placed :
      (bs : List Backend)
      → All Sane bs
      → sum_by room bs ≡ h
      → sum_by low bs + r ≡ 100
      → let out = distribute F (pos r) (pos h) bs in
        All₂ Placed bs out × (total_weight out ≡ pos 100)
  unfolding distribute
  distribute-Placed bs s sum_room sum_all =
      let (below, above) = quotas r h fits some_room bs sum_room in
      let q = sum_by (quota r h) bs in
      let spent =
        assigned_from_lem law r h fits some_room points small 0 bs s (omega arith)
        ∙ ap pos (omega arith) in
      let left : sub32 (pos r) (assigned_from F (pos r) (pos h) (pos 0) bs) ≡ pos (r - q) =
        ap (sub32 (pos r)) spent ∙ sub32_small r q (omega arith) (omega arith) in
      let placed = wholes-Placed bs s in
      let total = total_wholes bs s in
      let order = stable_sort (more_left_over F) (shares_from F (pos r) (pos h) 0 bs) in
      let rooms : sum_by (λ s. room_at bs (wholes bs) s.idx) order ≡ sum_by (spare r h) bs =
        sum_by-stable_sort (more_left_over F) (λ s. room_at bs (wholes bs) s.idx)
          (shares_from F (pos r) (pos h) 0 bs)
        ∙ rooms_from (room_at bs (wholes bs)) 0 bs s
            (λ k. ap (room_at bs (wholes bs)) (omega arith)) in
      let once : (i : ℕ) → occurs i order ≤ 1 = λ i. omega (
        arith,
        sum_by-stable_sort (more_left_over F) (λ s. if eqb s.idx i then 1 else 0)
            (shares_from F (pos r) (pos h) 0 bs),
        (occurs-shares F (pos r) (pos h) i 0 bs).0,
      ) in
      let (kept, sum) = hand_out_lem order bs (wholes bs) (r - q) (omega arith) once placed in
      elim (Bool-cases (eq_int (pos (r - q)) (pos 0))) [
        | inl e ↦ rw (left, e) (placed, total ∙ ap pos (ground (arith, e, below)))
        | inr e ↦
            rw (left, e)
              (
                kept,
                sum
                    ∙ eq_of_parts _ _ (
                        omega (
                          arith,
                          +ℤ_parts,
                          ap pos_part total,
                          ap neg_part total,
                          rooms,
                          above,
                          below,
                        )),
              )
      ]

abbrev pub high : Backend → ℕ
high b = pos_part b.max_weight

-- Backends of the schema with their bounds in order, whose minima add up to at most 100 and their
-- maxima to at least 100, in a sum that does not wrap.
pub record Fillable (bs : List Backend) : Type 0 where
  pub sane : All Sane bs
  pub low_sum : sum_by low bs ≤ 100
  pub high_sum : 100 ≤ sum_by high bs
  pub size : sum_by high bs < 2 ^ 31

sum_high : (bs : List Backend) → All Sane bs → sum_by high bs ≡ sum_by low bs + sum_by room bs
sum_high [] s = refl
sum_high (b ∷ bs) (s, ss) = omega (arith, ap pos_part (max_value b s), sum_high bs ss)

mins-Placed : (bs : List Backend) → All Sane bs → All₂ Placed bs (map min_weight_of bs)
mins-Placed [] s = tt
mins-Placed (b ∷ bs) (s, ss) = (
  record {
    schema = s.schema;
    bounded = record { name = refl; above_min = omega arith; below_max = s.ordered };
  },
  mins-Placed bs ss,
)

total_mins :
    (bs : List Backend) → All Sane bs → total_weight (map min_weight_of bs) ≡ pos (sum_by low bs)
total_mins [] s = refl
total_mins (b ∷ bs) (s, ss) =
    let p = ap pos_part (total_mins bs ss) in
    let n = ap neg_part (total_mins bs ss) in
    let n' = ap neg_part (Sane-low b s) in eq_of_parts _ _ (omega (arith, +ℤ_parts, p, n, n'))

Placed-Bounded :
    (bs : List Backend) (ws : List BackendWeight) → All₂ Placed bs ws → All₂ Bounded bs ws
Placed-Bounded [] [] h = tt
Placed-Bounded (b ∷ bs) (w ∷ ws) (h, hs) = (h.bounded, Placed-Bounded bs ws hs)
Placed-Bounded [] (w ∷ ws) h = elim h [ ]
Placed-Bounded (b ∷ bs) [] h = elim h [ ]

module _ (F : Type 0) ⦃fl : Float F⦄ where
  initial_weights_by :
      (bs : List Backend) (r h : ℕ)
      → used_from (pos 0) bs ≡ pos (100 - r)
      → r ≤ 100
      → total_head_from (pos 0) bs ≡ pos h
      → initial_weights F bs ≡ (
          if le_int (pos r) (pos 0) || le_int (pos h) (pos 0)
          then map min_weight_of bs
          else distribute F (pos r) (pos h) bs)
  unfolding initial_weights
  initial_weights_by bs r h e k e' =
      let remainder : sub32 (pos 100) (used_from (pos 0) bs) ≡ pos r =
        ap (sub32 (pos 100)) e
        ∙ (sub32_small 100 (100 - r) (omega arith) (omega arith) ∙ ap pos (omega arith)) in
      rw (remainder, e', initial_weights) refl

module _ {F : Type 0} ⦃fl : Float F⦄ where
  -- Given that the float64 arithmetic truncates shares as IEEE 754 says: if the bounds are in the
  -- schema and in order, and 100 lies between the sum of the minima and that of the maxima, which does
  -- not wrap, then `initialWeights` gives every backend a weight within its bounds, and the weights add
  -- up to 100.
  pub initial_weights_lem :
      TruncatesShares F
      → (bs : List Backend) → Fillable bs
      → All₂ Bounded bs (initial_weights F bs) × (total_weight (initial_weights F bs) ≡ pos 100)
  initial_weights_lem law bs f =
      let l = sum_by low bs in
      let r = 100 - l in
      let h = sum_by room bs in
      let all = sum_high bs f.sane in
      let low_sum = f.low_sum in
      let high_sum = f.high_sum in
      let size = f.size in
      let used = used_from_lem 0 bs f.sane (omega (arith, all)) ∙ ap pos (omega (arith, all)) in
      let heads = total_head_from_lem 0 bs f.sane (omega (arith, all)) ∙ ap pos (omega arith) in
      let runs = initial_weights_by F bs r h used (omega arith) heads in
      let mins = mins-Placed bs f.sane in
      let sum = total_mins bs f.sane in
      elim (Bool-cases (le_int (pos r) (pos 0) || le_int (pos h) (pos 0))) [
        | inl e ↦ rw (runs, e) (Placed-Bounded bs _ mins, sum ∙ ap pos (ground (arith, e, all)))
        | inr e ↦
            let (placed, total) =
              distribute-Placed law r h (ground (arith, all)) (ground (arith, e)) (omega arith)
                (omega (arith, all)) bs f.sane refl (omega (arith, all)) in
            rw (runs, e) (Placed-Bounded bs _ placed, total)
      ]
