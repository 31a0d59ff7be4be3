-- ===== src/Smoother/Examples.antt =====
-- Runs of the smoother on whole numbers.
use traficctl.Prelude.{ℕ, ◌≡◌, refl, List, [], ◌∷◌, ◌++◌, arith}
use traficctl.Prelude.Int.{ℤ, pos}
use traficctl.Prelude.Dict.{lookup}
use traficctl.Prelude.Whole.{whole}
use traficctl.Smoother.{Smoother, new_smoother, buffer, cap_of, observe}
use traficctl.Smoother.Window.{last}
use traficctl.Smoother.Laws.{Asks, mean, Call, run, history_of, observe-mean, run-buffer}

abbrev one_buffer : Smoother ℤ
one_buffer = record {
  max_window = 3;
  store = ("shop/web#latency", ("a", pos 10 ∷ pos 20 ∷ pos 30 ∷ []) ∷ []) ∷ [];
}

abbrev three_calls : List (Call ℤ)
three_calls =
    record { key = "k"; backend = "a"; value = pos 10; window = pos 2 }
    ∷ record { key = "k"; backend = "b"; value = pos 7; window = pos 2 }
    ∷ record { key = "k"; backend = "a"; value = pos 20; window = pos 2 }
    ∷ []

one_buffer-Tracks :
    buffer one_buffer "shop/web#latency" "a" ≡ last 3 (pos 10 ∷ pos 20 ∷ pos 30 ∷ [])
unfolding lookup
one_buffer-Tracks = refl

observe-mean_example :
    (n : ℕ) × (Asks 3 (pos 2) n
      × ((observe one_buffer "shop/web#latency" "a" (pos 40) (pos 2)).1
          ≡ mean (last n ((pos 10 ∷ pos 20 ∷ pos 30 ∷ []) ++ (pos 40 ∷ [])))))
observe-mean_example =
    observe-mean one_buffer "shop/web#latency" "a" (pos 40) (pos 2) (pos 10 ∷ pos 20 ∷ pos 30 ∷ [])
      (omega arith) one_buffer-Tracks

run-buffer_example :
    buffer (run (new_smoother (pos 2)) three_calls) "k" "a"
    ≡ last (cap_of (pos 2)) (history_of "k" "a" three_calls)
run-buffer_example = run-buffer (pos 2) three_calls "k" "a"
