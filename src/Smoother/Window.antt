-- ===== src/Smoother/Window.antt =====
-- The most recent elements of a list.
use traficctl.Prelude.{
  ℕ, zero, suc, ◌+◌, ◌-◌, ◌≤◌, ◌≡◌, refl, List, [], ◌∷◌, ◌++◌, arith, ap, ◌∙◌, sym, inl, inr,
}
use traficctl.Prelude.Tests.{ltb, Bool-cases, ltb-false→le}
use traficctl.Prelude.Lists.{length, drop, length-append}
use traficctl.Smoother.{append_sample}

module _ {A : Type 0} where
  -- The last `n` elements, or all if there are fewer.
  abbrev pub last : ℕ → List A → List A
  last n xs = drop (length xs - n) xs

  pub length-drop : (n : ℕ) (xs : List A) → length (drop n xs) ≡ length xs - n
  length-drop zero xs = omega arith
  length-drop (suc n) [] = omega arith
  length-drop (suc n) (x ∷ xs) = omega (arith, length-drop n xs)

  pub length-last : (n : ℕ) (xs : List A) → n ≤ length xs → length (last n xs) ≡ n
  length-last n xs h = omega (arith, length-drop (length xs - n) xs)

  drop-append : (n : ℕ) (xs ys : List A) → n ≤ length xs → drop n (xs ++ ys) ≡ drop n xs ++ ys
  drop-append zero xs ys h = refl
  drop-append (suc n) [] ys h = absurd (omega arith)
  drop-append (suc n) (x ∷ xs) ys h = drop-append n xs ys (omega arith)

  pub drop-nil : (n : ℕ) → drop {A = A} n [] ≡ []
  drop-nil zero = refl
  drop-nil (suc n) = refl

  drop-drop : (m n : ℕ) (xs : List A) → drop m (drop n xs) ≡ drop (n + m) xs
  drop-drop m zero xs = ap (λ k. drop k xs) (omega arith)
  drop-drop m (suc n) [] = drop-nil m ∙ sym (drop-nil (suc n + m))
  drop-drop m (suc n) (x ∷ xs) =
      let shift : suc (n + m) ≡ suc n + m = omega arith in
      drop-drop m n xs ∙ ap (λ k. drop k (x ∷ xs)) shift

  -- A first cut to `n` does not show in a later cut to at most `n`.
  pub last_of_last : (w n : ℕ) (xs : List A) → w ≤ n → last w (last n xs) ≡ last w xs
  last_of_last w n xs h =
      let cut = length xs - n in
      drop-drop (length (drop cut xs) - w) cut xs
      ∙ ap (λ k. drop k xs) (omega (arith, length-drop cut xs))

  pub last-append : (n : ℕ) (xs ys : List A) → last n (last n xs ++ ys) ≡ last n (xs ++ ys)
  last-append n xs ys =
      let cut = length xs - n in
      ap (last n) (sym (drop-append cut xs ys (omega arith)))
      ∙ (drop-drop (length (drop cut (xs ++ ys)) - n) cut (xs ++ ys)
          ∙ ap (λ k. drop k (xs ++ ys))
              (omega (arith, length-drop cut (xs ++ ys), length-append xs ys)))

  pub append_sample-last :
      (most : ℕ) (old : List A) (v : A) → append_sample most old v ≡ last most (old ++ (v ∷ []))
  unfolding append_sample
  append_sample-last most old v =
      let buf = old ++ (v ∷ []) in
      elim (Bool-cases (ltb most (length buf))) [
        | inl e ↦ rw e
        | inr e ↦
            let fits : 0 ≡ length buf - most = omega (arith, ltb-false→le most (length buf) e) in
            rw e (ap (λ k. drop k buf) fits)
      ]
