-- ===== src/Evaluator/Contained.antt =====
-- Inputs of `Evaluate` whose allocation lies within the bounds of backends that the API server admits.
use traficctl.Prelude.{◌≡◌, sym, ◌∙◌, List, [], ◌∷◌, arith, String, ◌≢◌}
use traficctl.Prelude.Int.{ℤ, pos, negsuc, IsInt32, ◌≤ℤ◌}
use traficctl.Prelude.Lists.{All, All-mono, All₂, Distinct}
use traficctl.Prelude.Float.{Float}
use traficctl.Api.Types.{Backend, BackendWeight}
use traficctl.Api.Schema.{InSchema, Bounded}
use traficctl.Evaluator.{evaluate}
use traficctl.Evaluator.State.{Input}
use traficctl.Evaluator.Laws.{IsReady, evaluate-Bounded}

-- Backends in the schema, with names of their own, and a weight within its bounds for each.
pub record Contained {F : Type 0} (inp : Input F) : Type 0 where
  pub schema : All InSchema inp.backends
  pub distinct : Distinct (λ b. b.name) inp.backends
  pub weights : All₂ Bounded inp.backends inp.current
  pub step : IsInt32 inp.max_step_percent
  pub step_nonneg : pos 0 ≤ℤ inp.max_step_percent

Bounded-names :
    (bs : List Backend) (ws : List BackendWeight)
    → All₂ Bounded bs ws
    → All₂ (λ (b : Backend) (w : BackendWeight). w.name ≡ b.name) bs ws
Bounded-names [] [] h = tt
Bounded-names (b ∷ bs) (w ∷ ws) (h, hs) = (h.name, Bounded-names bs ws hs)
Bounded-names [] (w ∷ ws) h = elim h [ ]
Bounded-names (b ∷ bs) [] h = elim h [ ]

fresh-names :
    (k : String) (bs : List Backend) (ws : List BackendWeight)
    → All₂ Bounded bs ws
    → All (λ b. b.name ≢ k) bs
    → All (λ w. w.name ≢ k) ws
fresh-names k [] [] h a = tt
fresh-names k (b ∷ bs) (w ∷ ws) (h, hs) (a, rest) =
    ((λ e. a (sym h.name ∙ e)), fresh-names k bs ws hs rest)
fresh-names k [] (w ∷ ws) h a = elim h [ ]
fresh-names k (b ∷ bs) [] h a = elim h [ ]

Distinct-names :
    (bs : List Backend) (ws : List BackendWeight)
    → All₂ Bounded bs ws
    → Distinct (λ b. b.name) bs
    → Distinct (λ w. w.name) ws
Distinct-names [] [] h d = tt
Distinct-names (b ∷ bs) (w ∷ ws) (h, hs) (new, d) =
    (rw h.name (fresh-names b.name bs ws hs new), Distinct-names bs ws hs d)
Distinct-names [] (w ∷ ws) h d = elim h [ ]
Distinct-names (b ∷ bs) [] h d = elim h [ ]

small_fits : (z : ℤ) → pos 0 ≤ℤ z → z ≤ℤ pos 100 → IsInt32 z
small_fits (pos n) h k = omega arith
small_fits (negsuc n) h k = absurd (omega arith)

weights-IsInt32 :
    (bs : List Backend) (ws : List BackendWeight)
    → All InSchema bs
    → All₂ Bounded bs ws
    → All (λ w. IsInt32 w.weight) ws
weights-IsInt32 [] [] s h = tt
weights-IsInt32 (b ∷ bs) (w ∷ ws) ((lo, lo', hi, hi'), ss) (h, hs) =
    let above = h.above_min in
    let below = h.below_max in
    (small_fits w.weight (omega arith) (omega arith), weights-IsInt32 bs ws ss hs)
weights-IsInt32 [] (w ∷ ws) s h = elim h [ ]
weights-IsInt32 (b ∷ bs) [] s h = elim h [ ]

module _ {F : Type 0} ⦃fl : Float F⦄ where
  pub Contained-IsReady : (inp : Input F) → Contained inp → IsReady inp
  Contained-IsReady inp c = record {
    fits = record {
      backends =
          All-mono InSchema (λ b. IsInt32 b.min_weight × IsInt32 b.max_weight)
            (λ b (lo, lo', hi, hi').
              (small_fits b.min_weight lo lo', small_fits b.max_weight hi hi'))
            inp.backends c.schema;
      current = weights-IsInt32 inp.backends inp.current c.schema c.weights;
      step = c.step;
    };
    aligned = record {
      names = Bounded-names inp.backends inp.current c.weights;
      distinct = Distinct-names inp.backends inp.current c.weights c.distinct;
    };
    step = c.step_nonneg;
  }

  -- The input of the next decision, if the samples stay what they are.
  abbrev pub next : Input F → Input F
  next inp = record inp { current = (evaluate inp).weights }

  pub next-Contained : (inp : Input F) → Contained inp → Contained (next inp)
  next-Contained inp c = record {
    schema = c.schema;
    distinct = c.distinct;
    weights = evaluate-Bounded inp (Contained-IsReady inp c) c.weights;
    step = c.step;
    step_nonneg = c.step_nonneg;
  }
