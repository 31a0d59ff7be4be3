-- ===== src/Controller/Initial.antt =====
-- internal/controller/trafficpolicy_controller.go: `initialWeights`.
pub mod Points
pub mod Shares
pub mod Laws
use traficctl.Prelude.{
  ℕ, zero, suc, List, [], ◌∷◌, map, Option, none, some, Bool, true, false, ◌||◌, String,
}
use traficctl.Prelude.Tests.{if◌then◌else◌}
use traficctl.Prelude.Int.{ℤ, pos, add32, sub32, lt_int, le_int, eq_int}
use traficctl.Prelude.Lists.{get_elem?, modify}
use traficctl.Prelude.Float.{Float}
use traficctl.Prelude.Sort.{stable_sort}
use traficctl.Api.Types.{Backend, BackendWeight}

pub record Share (F : Type 0) : Type 0 where
  pub idx : ℕ
  pub frac : F

abbrev pub headroom : Backend → ℤ
headroom b = sub32 b.max_weight b.min_weight

-- The two sums of the first loop, `used` and `totalHead`.
unfoldable pub used_from : ℤ → List Backend → ℤ
used_from acc [] = acc
used_from acc (b ∷ bs) = used_from (add32 acc b.min_weight) bs

unfoldable pub total_head_from : ℤ → List Backend → ℤ
total_head_from acc [] = acc
total_head_from acc (b ∷ bs) = total_head_from (add32 acc (headroom b)) bs

abbrev pub min_weight_of : Backend → BackendWeight
min_weight_of b = record { name = b.name; weight = b.min_weight }

abbrev pub bump : BackendWeight → BackendWeight
bump w = record w { weight = add32 w.weight (pos 1) }

module _ {F : Type 0} where
  -- One more point for each share in turn, while points are left and the backend has room.
  unfoldable pub hand_out :
      List (Share F) → List Backend → List BackendWeight → ℤ → List BackendWeight
  hand_out [] bs ws leftover = ws
  hand_out (s ∷ ss) bs ws leftover = elim (eq_int leftover (pos 0)) [
    | true ↦ ws
    | false ↦ elim (get_elem? ws s.idx) [
      | none ↦ hand_out ss bs ws leftover
      | some w ↦ elim (get_elem? bs s.idx) [
        | none ↦ hand_out ss bs ws leftover
        | some b ↦ elim (lt_int w.weight b.max_weight) [
          | true ↦ hand_out ss bs (modify s.idx bump ws) (sub32 leftover (pos 1))
          | false ↦ hand_out ss bs ws leftover
        ]
      ]
    ]
  ]

module _ (F : Type 0) ⦃fl : Float F⦄ where
  unfoldable pub exact_share : ℤ → ℤ → Backend → F
  exact_share remainder total_head b =
      fl.div (fl.mul (fl.of_int remainder) (fl.of_int (headroom b))) (fl.of_int total_head)

  unfoldable pub whole_share : ℤ → ℤ → Backend → ℤ
  unfolding exact_share
  whole_share remainder total_head b = fl.to_int32 (exact_share remainder total_head b)

  unfoldable pub whole_weight : ℤ → ℤ → Backend → BackendWeight
  unfolding whole_share
  whole_weight remainder total_head b = record {
    name = b.name;
    weight = add32 b.min_weight (whole_share remainder total_head b);
  }

  unfoldable pub assigned_from : ℤ → ℤ → ℤ → List Backend → ℤ
  unfolding whole_share
  assigned_from remainder total_head acc [] = acc
  assigned_from remainder total_head acc (b ∷ bs) =
      assigned_from remainder total_head (add32 acc (whole_share remainder total_head b)) bs

  unfoldable pub shares_from : ℤ → ℤ → ℕ → List Backend → List (Share F)
  unfolding whole_share exact_share
  shares_from remainder total_head i [] = []
  shares_from remainder total_head i (b ∷ bs) =
      let exact = exact_share remainder total_head b in
      let whole = fl.of_int (whole_share remainder total_head b) in
      record { idx = i; frac = fl.sub exact whole } ∷ shares_from remainder total_head (suc i) bs

  abbrev pub more_left_over : Share F → Share F → Bool
  more_left_over a b = fl.lt b.frac a.frac

  -- The rest of the function where something is left to distribute.
  unfoldable pub distribute : ℤ → ℤ → List Backend → List BackendWeight
  unfolding whole_weight assigned_from shares_from hand_out
  distribute remainder total_head bs =
      let ws = map (whole_weight remainder total_head) bs in
      let leftover = sub32 remainder (assigned_from remainder total_head (pos 0) bs) in
      if eq_int leftover (pos 0)
      then ws
      else hand_out (stable_sort more_left_over (shares_from remainder total_head 0 bs)) bs ws
          leftover

  unfoldable pub initial_weights : List Backend → List BackendWeight
  unfolding used_from total_head_from distribute
  initial_weights bs =
      let remainder = sub32 (pos 100) (used_from (pos 0) bs) in
      let total_head = total_head_from (pos 0) bs in
      if le_int remainder (pos 0) || le_int total_head (pos 0)
      then map min_weight_of bs
      else distribute remainder total_head bs
