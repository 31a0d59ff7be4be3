-- ===== src/Controller/Initial/Points.antt =====
-- The last loop of `initialWeights`: it gives away all points that are left, if enough backends have
-- room.
use mathlib.Core.Option.{some-injective}
use mathlib.Core.Path.{subst₂}
use Prim.Native.Nat.{min}
use traficctl.Prelude.{
  ℕ, zero, suc, ◌^◌, ◌≤◌, ◌<◌, ◌≡◌, ◌≢◌, refl, List, [], ◌∷◌, some, none, arith, sym, ◌∙◌, ap, inl,
  inr, Option, ◌⊎◌,
}
use traficctl.Prelude.Tests.{Bool-cases, Option-cases, if◌then◌else◌, eqb}
use traficctl.Prelude.Int.{
  ℤ, pos, negsuc, pos_part, neg_part, ◌+ℤ◌, ◌-ℤ◌, ◌≤ℤ◌, ◌<ℤ◌, lt_int, add32, sub32, wrap32,
  +ℤ_parts, eq_of_parts,
}
use traficctl.Prelude.Lists.{get_elem?, modify, All₂, All₂-modify, get_elem?-modify_ne}
use traficctl.Prelude.Sort.{sum_by}
use traficctl.Api.Types.{Backend, BackendWeight}
use traficctl.Api.Schema.{InSchema, Bounded, total_weight}
use traficctl.Controller.Initial.{Share, bump, hand_out}

-- A weight within the bounds of a backend that is in the schema.
pub record Placed (b : Backend) (w : BackendWeight) : Type 0 where
  pub schema : InSchema b
  pub bounded : Bounded b w

-- 1 if the backend at the index has room for a point, and else 0.
abbrev pub room_of : Option Backend → Option BackendWeight → ℕ
room_of (some b) (some w) = if lt_int w.weight b.max_weight then 1 else 0
room_of none _ = 0
room_of (some b) none = 0

abbrev pub room_at : List Backend → List BackendWeight → ℕ → ℕ
room_at bs ws i = room_of (get_elem? bs i) (get_elem? ws i)

-- How often an index occurs.
abbrev pub occurs : {F : Type 0} → ℕ → List (Share F) → ℕ
occurs i = sum_by λ s. if eqb s.idx i then 1 else 0

-- A weight below 100 is incremented without wrapping.
bump_value : (w : ℤ) → pos 0 ≤ℤ w → w <ℤ pos 100 → add32 w (pos 1) ≡ w +ℤ pos 1
unfolding wrap32 ◌+ℤ◌
bump_value (pos n) h k = ground arith
bump_value (negsuc n) h k = absurd (omega arith)

sub32-suc : (l : ℕ) → suc l < 2 ^ 31 → sub32 (pos (suc l)) (pos 1) ≡ pos l
unfolding wrap32 ◌-ℤ◌
sub32-suc l k = ground arith

bump-Placed :
    (b : Backend) (w : BackendWeight) → Placed b w → w.weight <ℤ b.max_weight → Placed b (bump w)
bump-Placed b w p h =
    let (lo, lo', hi, hi') = p.schema in
    let above = p.bounded.above_min in
    let value = bump_value w.weight (omega arith) (omega arith) in
    let vp = ap pos_part value in
    let vn = ap neg_part value in
    record {
      schema = p.schema;
      bounded = record {
        name = p.bounded.name;
        above_min = omega (arith, +ℤ_parts, vp, vn, above);
        below_max = omega (arith, +ℤ_parts, vp, vn);
      };
    }

total_weight-modify :
    (i : ℕ) (ws : List BackendWeight) (w : BackendWeight)
    → get_elem? ws i ≡ some w
    → add32 w.weight (pos 1) ≡ w.weight +ℤ pos 1
    → total_weight (modify i bump ws) ≡ total_weight ws +ℤ pos 1
total_weight-modify i [] w h e = cc
total_weight-modify zero (x ∷ xs) w h e =
    let same : x ≡ w = some-injective x w h in
    let e' : add32 x.weight (pos 1) ≡ x.weight +ℤ pos 1 = rw same e in
    eq_of_parts _ _ (omega (arith, +ℤ_parts, ap pos_part e', ap neg_part e'))
total_weight-modify (suc i) (x ∷ xs) w h e =
    let ih = total_weight-modify i xs w h e in
    eq_of_parts _ _ (omega (arith, +ℤ_parts, ap pos_part ih, ap neg_part ih))

Placed-at :
    (bs : List Backend) (ws : List BackendWeight) (i : ℕ) (b : Backend) (w : BackendWeight)
    → All₂ Placed bs ws
    → get_elem? bs i ≡ some b
    → get_elem? ws i ≡ some w
    → Placed b w
Placed-at [] [] i b w all h k = cc
Placed-at (x ∷ bs) (y ∷ ws) zero b w all h k =
    subst₂ Placed (some-injective x b h) (some-injective y w k) all.0
Placed-at (x ∷ bs) (y ∷ ws) (suc i) b w all h k = Placed-at bs ws i b w all.1 h k
Placed-at [] (y ∷ ws) i b w all h k = elim all [ ]
Placed-at (x ∷ bs) [] i b w all h k = elim all [ ]

-- Where there is room, there are a backend and a weight below its maximum.
record Open (bs : List Backend) (ws : List BackendWeight) (i : ℕ) : Type 0 where
  b : Backend
  w : BackendWeight
  at_b : get_elem? bs i ≡ some b
  at_w : get_elem? ws i ≡ some w
  below : w.weight <ℤ b.max_weight

room_cases :
    (bs : List Backend) (ws : List BackendWeight) (i : ℕ)
    → (room_at bs ws i ≡ 0) ⊎ ((room_at bs ws i ≡ 1) × Open bs ws i)
room_cases bs ws i = elim (Option-cases (get_elem? bs i)) [
  | inl e ↦ inl (rw e)
  | inr (b, e) ↦ elim (Option-cases (get_elem? ws i)) [
    | inl e' ↦ inl (rw (e, e'))
    | inr (w, e') ↦ elim (Bool-cases (lt_int w.weight b.max_weight)) [
      | inl r ↦
          let open_here : Open bs ws i = record {
            b = b;
            w = w;
            at_b = e;
            at_w = e';
            below = ground arith;
          } in
          inr (rw (e, e', r), open_here)
      | inr r ↦ inl (rw (e, e', r))
    ]
  ]
]

-- What a point given to an open place does.
give_point :
    (bs : List Backend) (ws : List BackendWeight) (i : ℕ)
    → Open bs ws i
    → All₂ Placed bs ws
    → All₂ Placed bs (modify i bump ws)
      × (total_weight (modify i bump ws) ≡ total_weight ws +ℤ pos 1)
give_point bs ws i o all =
    let p = Placed-at bs ws i o.b o.w all o.at_b o.at_w in
    let (lo, lo', hi, hi') = p.schema in
    let above = p.bounded.above_min in
    let below = o.below in
    (
      All₂-modify Placed i bump bs ws
          (λ b w hb hw placed.
            let same_b = some-injective b o.b (sym hb ∙ o.at_b) in
            let same_w = some-injective w o.w (sym hw ∙ o.at_w) in
            bump-Placed b w placed (rw (same_b, same_w) below))
          all,
      total_weight-modify i ws o.w o.at_w (bump_value o.w.weight (omega arith) (omega arith)),
    )

-- The state of the loop at one share.
module _ {F : Type 0} where
  -- A bump at one index leaves the room at every other.
  rooms_after :
      (i : ℕ) (bs : List Backend) (ws : List BackendWeight) (ss : List (Share F))
      → occurs i ss ≡ 0
      → sum_by (λ s. room_at bs (modify i bump ws) s.idx) ss ≡ sum_by (λ s. room_at bs ws s.idx) ss
  rooms_after i bs ws [] h = refl
  rooms_after i bs ws (s ∷ ss) h =
      let other : i ≢ s.idx = λ e. absurd (ground arith) in
      let rest = rooms_after i bs ws ss (omega arith) in
      let here : room_at bs (modify i bump ws) s.idx ≡ room_at bs ws s.idx =
        ap (room_of (get_elem? bs s.idx)) (get_elem?-modify_ne i s.idx bump ws other) in
      omega (arith, here, rest)

  module _ (s : Share F) (ss : List (Share F)) (bs : List Backend) (ws : List BackendWeight) where
    hand_out_zero : hand_out (s ∷ ss) bs ws (pos 0) ≡ ws
    unfolding hand_out
    hand_out_zero = refl

    hand_out_skip :
        (left : ℕ)
        → 0 < left
        → room_at bs ws s.idx ≡ 0
        → hand_out (s ∷ ss) bs ws (pos left) ≡ hand_out ss bs ws (pos left)
    unfolding hand_out
    hand_out_skip left h r = ground arith

    hand_out_give :
        (left : ℕ)
        → 0 < left
        → room_at bs ws s.idx ≡ 1
        → hand_out (s ∷ ss) bs ws (pos left)
          ≡ hand_out ss bs (modify s.idx bump ws) (sub32 (pos left) (pos 1))
    unfolding hand_out
    hand_out_give left h r = ground arith

  -- If no place occurs twice among the shares, and every weight lies within the bounds of its backend,
  -- then the loop keeps every weight within its bounds, and raises the total by the points left over,
  -- or by the number of places with room if that is less.
  pub hand_out_lem :
      (ss : List (Share F)) (bs : List Backend) (ws : List BackendWeight) (left : ℕ)
      → left < 2 ^ 31
      → ((i : ℕ) → occurs i ss ≤ 1)
      → All₂ Placed bs ws
      → let out = hand_out ss bs ws (pos left) in
        All₂ Placed bs out
        × (total_weight out
            ≡ total_weight ws +ℤ pos (min left (sum_by (λ s. room_at bs ws s.idx) ss)))
  hand_out_lem [] bs ws left small once all =
      unfold hand_out in (all, eq_of_parts _ _ (omega (arith, +ℤ_parts)))
  hand_out_lem (s ∷ ss) bs ws zero small once all =
      rw hand_out_zero (all, eq_of_parts _ _ (omega (arith, +ℤ_parts)))
  hand_out_lem (s ∷ ss) bs ws (suc l) small once all =
      let fewer : (i : ℕ) → occurs i ss ≤ 1 = λ i. omega (arith, once i) in
      elim (room_cases bs ws s.idx) [
        | inl none_here ↦
            let skip = hand_out_lem ss bs ws (suc l) small fewer all in
            rw (hand_out_skip s ss bs ws (suc l) (omega arith) none_here, none_here)
              (
                skip.0,
                skip.1 ∙ ap (λ (k : ℕ). total_weight ws +ℤ pos (min (suc l) k)) (omega arith),
              )
        | inr (r, o) ↦
            let (placed, total) = give_point bs ws s.idx o all in
            let rest = hand_out_lem ss bs (modify s.idx bump ws) l (omega arith) fewer placed in
            let gone : occurs s.idx ss ≡ 0 = ground (arith, once s.idx) in
            let same = rooms_after s.idx bs ws ss gone in
            rw (hand_out_give s ss bs ws (suc l) (omega arith) r, r, sub32-suc l small)
              (
                rest.0,
                eq_of_parts _ _ (
                    omega (
                      arith,
                      +ℤ_parts,
                      ap pos_part rest.1,
                      ap neg_part rest.1,
                      ap pos_part total,
                      ap neg_part total,
                      same,
                    )),
              )
      ]
