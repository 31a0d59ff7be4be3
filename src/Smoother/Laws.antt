-- ===== src/Smoother/Laws.antt =====
-- `Observe` against the history of the samples of each key and backend.
use mathlib.Core.List.{append-nil, append_assoc}
use text.Mathlib.TextEquality.{eq_iff}
use text.Mathlib.Text.{◌==◌}
use traficctl.Prelude.{
  ℕ, ◌≤◌, ◌≡◌, refl, true, List, [], ◌∷◌, ◌++◌, arith, ap, ap₂, ◌∙◌, sym, inl, inr, String,
}
use traficctl.Prelude.Tests.{if◌then◌else◌, Bool-cases}
use traficctl.Prelude.Int.{ℤ, pos, le_int}
use traficctl.Prelude.Dict.{lookup, lookup-insert}
use traficctl.Prelude.Lists.{length}
use traficctl.Prelude.Float.{Float}
use traficctl.Smoother.{
  Smoother, new_smoother, buffer, clamp_window, append_sample, mean_of_last, observe, sum_from,
  cap_of,
}
use traficctl.Smoother.Window.{last, last_of_last, last-append, append_sample-last, drop-nil}

-- The window lies between 1 and the cap.
pub clamp_window_bounds :
    (most : ℕ) (window : ℤ)
    → 1 ≤ most
    → (1 ≤ clamp_window most window) × (clamp_window most window ≤ most)
unfolding clamp_window
clamp_window_bounds most window h = ground arith

-- How many samples a window asks for: no fewer than one, and no more than the cap.
abbrev pub Asks : (most : ℕ) → ℤ → ℕ → Type 0
Asks most window n =
    (le_int window (pos 0) ≡ true → n ≡ 1)
    × ((k : ℕ) → window ≡ pos k → 1 ≤ k → k ≤ most → n ≡ k)
    × ((k : ℕ) → window ≡ pos k → most ≤ k → n ≡ most)

clamp_window-Asks : (most : ℕ) (window : ℤ) → 1 ≤ most → Asks most window (clamp_window most window)
unfolding clamp_window
clamp_window-Asks most window h = (
  λ e. ground (arith, e, h),
  λ k e a b. rw e (ground (arith, a, b, h)),
  λ k e a. rw e (ground (arith, a, h)),
)

-- A call of `Observe`.
pub record Call (F : Type 0) : Type 0 where
  pub key : String
  pub backend : String
  pub value : F
  pub window : ℤ

module _ {F : Type 0} ⦃fl : Float F⦄ where
  -- After `Observe` the buffer of its key and backend holds one more sample, cut to the cap; every
  -- other buffer is as it was, and so is the cap.
  pub observe-buffer :
      (s : Smoother F) (key backend : String) (v : F) (window : ℤ) (key' backend' : String)
      → buffer (observe s key backend v window).0 key' backend' ≡ (
          if key == key'
          then (if backend == backend'
              then last s.max_window (buffer s key backend ++ (v ∷ []))
              else buffer s key' backend')
          else buffer s key' backend')
  unfolding observe
  observe-buffer s key backend v window key' backend' =
      rw (lookup-insert key key') (elim (Bool-cases (key == key')) [
        | inl same ↦
            let e = (eq_iff key key').0 same in
            rw (same, lookup-insert backend backend')
              (elim (Bool-cases (backend == backend')) [
                | inl same' ↦ rw (same', append_sample-last s.max_window)
                | inr other ↦ rw other (ap (λ k. buffer s k backend') e)
              ])
        | inr other ↦ rw other
      ])

  -- The samples that a key and a backend have seen, the last at the end, are those of `history`.
  abbrev pub Tracks : Smoother F → String → String → List F → Type 0
  Tracks s key backend history = buffer s key backend ≡ last s.max_window history

  observe_cap :
      (s : Smoother F) (key backend : String) (v : F) (window : ℤ)
      → (observe s key backend v window).0.max_window ≡ s.max_window
  unfolding observe
  observe_cap s key backend v window = refl

  -- The arithmetic mean of samples, summed from the left.
  abbrev pub total : F → List F → F
  total acc [] = acc
  total acc (v ∷ vs) = total (fl.add acc v) vs

  abbrev pub mean : List F → F
  mean vs = fl.div (total fl.nought vs) (fl.of_int (pos (length vs)))

  sum_from-total : (acc : F) (vs : List F) → sum_from acc vs ≡ total acc vs
  unfolding sum_from
  sum_from-total acc [] = refl
  sum_from-total acc (v ∷ vs) = sum_from-total (fl.add acc v) vs

  mean_of_last-mean : (n : ℕ) (vs : List F) → mean_of_last n vs ≡ mean (last n vs)
  unfolding mean_of_last
  mean_of_last-mean n vs =
      ap (λ (s : F). fl.div s (fl.of_int (pos (length (last n vs)))))
        (sum_from-total fl.nought (last n vs))

  -- With a cap of at least 1, and a buffer that holds the last samples of a history, `Observe` returns
  -- the arithmetic mean of the most recent samples of its key and backend, the new one included, divided
  -- by how many they are: as many as the window says, but at least one and no more than the cap, or all
  -- that there are.
  pub observe-mean :
      (s : Smoother F) (key backend : String) (v : F) (window : ℤ) (history : List F)
      → 1 ≤ s.max_window
      → Tracks s key backend history
      → (n : ℕ) × (Asks s.max_window window n
          × ((observe s key backend v window).1 ≡ mean (last n (history ++ (v ∷ [])))))
  unfolding observe
  observe-mean s key backend v window history room t =
      let most = s.max_window in
      let c = clamp_window most window in
      let seen = history ++ (v ∷ []) in
      let buf : append_sample most (buffer s key backend) v ≡ last most seen =
        append_sample-last most (buffer s key backend) v
        ∙ (ap (λ (h : List F). last most (h ++ (v ∷ []))) t ∙ last-append most history (v ∷ [])) in
      let slice : last c (append_sample most (buffer s key backend) v) ≡ last c seen =
        ap (last c) buf ∙ last_of_last c most seen (clamp_window_bounds most window room).1 in
      (
        c,
        (
          clamp_window-Asks most window room,
          mean_of_last-mean c (append_sample most (buffer s key backend) v) ∙ ap mean slice,
        ),
      )

  -- The sample of a call, if it is for the key and the backend.
  unfoldable pub own : String → String → Call F → List F
  own key backend c =
      if c.key == key then (if c.backend == backend then c.value ∷ [] else []) else []

  unfoldable pub run : Smoother F → List (Call F) → Smoother F
  run s [] = s
  run s (c ∷ cs) = run (observe s c.key c.backend c.value c.window).0 cs

  -- The samples of the calls for one key and backend, in order.
  unfoldable pub history_of : String → String → List (Call F) → List F
  unfolding own
  history_of key backend [] = []
  history_of key backend (c ∷ cs) = own key backend c ++ history_of key backend cs

  observe-Tracks :
      (c : Call F) (s : Smoother F) (key backend : String) (h : List F)
      → Tracks s key backend h
      → Tracks (observe s c.key c.backend c.value c.window).0 key backend (h ++ own key backend c)
  unfolding own
  observe-Tracks c s key backend h t =
      rw
        (
          observe-buffer s c.key c.backend c.value c.window key backend,
          observe_cap s c.key c.backend c.value c.window,
        )
        (elim (Bool-cases (c.key == key)) [
          | inl same ↦ elim (Bool-cases (c.backend == backend)) [
            | inl same' ↦
                let k : c.key ≡ key = (eq_iff c.key key).0 same in
                let b : c.backend ≡ backend = (eq_iff c.backend backend).0 same' in
                let here : buffer s c.key c.backend ≡ last s.max_window h =
                  ap₂ (buffer s) k b ∙ t in
                rw (same, same')
                  (ap (λ (xs : List F). last s.max_window (xs ++ (c.value ∷ []))) here
                    ∙ last-append s.max_window h (c.value ∷ []))
            | inr other ↦ rw (same, other, append-nil) t
          ]
          | inr other ↦ rw (other, append-nil) t
        ])

  run-Tracks :
      (cs : List (Call F)) (s : Smoother F) (key backend : String) (h : List F)
      → Tracks s key backend h
      → buffer (run s cs) key backend ≡ last s.max_window (h ++ history_of key backend cs)
  unfolding run history_of
  run-Tracks [] s key backend h t = t ∙ ap (last s.max_window) (sym (append-nil h))
  run-Tracks (c ∷ cs) s key backend h t =
      let next = observe-Tracks c s key backend h t in
      run-Tracks cs (observe s c.key c.backend c.value c.window).0 key backend
        (h ++ own key backend c) next
      ∙ ap₂ (λ (n : ℕ) (xs : List F). last n xs) (observe_cap s c.key c.backend c.value c.window)
          (append_assoc h (own key backend c) (history_of key backend cs))

  -- After any calls of `Observe` on a new smoother, each buffer holds the last samples of its key and
  -- backend, as many as the cap or all that there are, whatever the calls for others.
  pub run-buffer :
      (most : ℤ) (cs : List (Call F)) (key backend : String)
      → buffer (run (new_smoother most) cs) key backend
        ≡ last (cap_of most) (history_of key backend cs)
  unfolding new_smoother cap_of lookup
  run-buffer most cs key backend =
      run-Tracks cs (new_smoother most) key backend [] (sym (drop-nil _))
