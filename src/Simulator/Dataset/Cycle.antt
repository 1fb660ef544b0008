-- ===== src/Simulator/Dataset/Cycle.antt =====
-- dataset.py: "a long-running simulator never just stops", and where it does.
use native.Mathlib.Nat.{mod-eq-sub-mod, mod-eq_of_lt}
use agentic_ml_engineering_l.Base.{
  ℕ, zero, suc, ◌-◌, ◌%◌, ◌≤◌, ◌<◌, true, Option, List, [], ◌∷◌, ◌++◌, length, length-append,
  length-take, take, get_elem?, leb, ◌≡◌, refl, sym, ap, ◌∙◌, Bool-cases, inl, inr, arith,
}
use agentic_ml_engineering_l.Simulator.Dataset.{one_pass, cycled, stream_rows}

module _ {A : Type 0} where
  get_elem?-take : (n i : ℕ) (xs : List A) → i < n → get_elem? (take n xs) i ≡ get_elem? xs i
  get_elem?-take zero i xs h = absurd (omega arith)
  get_elem?-take (suc n) i [] h = refl
  get_elem?-take (suc n) zero (x ∷ xs) h = refl
  get_elem?-take (suc n) (suc i) (x ∷ xs) h = get_elem?-take n i xs (omega arith)

  get_elem?-append_left :
      (xs ys : List A) (i : ℕ) → i < length xs → get_elem? (xs ++ ys) i ≡ get_elem? xs i
  get_elem?-append_left [] ys i h = absurd (omega arith)
  get_elem?-append_left (x ∷ xs) ys zero h = refl
  get_elem?-append_left (x ∷ xs) ys (suc i) h = get_elem?-append_left xs ys i (omega arith)

  get_elem?-append_right :
      (xs ys : List A) (i : ℕ)
      → length xs ≤ i
      → get_elem? (xs ++ ys) i ≡ get_elem? ys (i - length xs)
  get_elem?-append_right [] ys i h = ap (get_elem? ys) (omega arith)
  get_elem?-append_right (x ∷ xs) ys zero h = absurd (omega arith)
  get_elem?-append_right (x ∷ xs) ys (suc i) h =
      get_elem?-append_right xs ys i (omega arith) ∙ ap (get_elem? ys) (omega arith)

  module _ (rows : List A) (some_row : 1 ≤ length rows) where
    length-cycled : (passes n : ℕ) → n ≤ passes → length (cycled passes n rows) ≡ n
    unfolding cycled
    length-cycled zero n h = omega arith
    length-cycled (suc passes) n h = elim (Bool-cases (leb n (length rows))) [
      | inl e ↦ rw e (ground (arith, length-take n rows))
      | inr e ↦ rw e (
          ground (
            arith,
            length-append rows (cycled passes (n - length rows) rows),
            length-cycled passes (n - length rows),
          ))
    ]

    get_elem?-cycled :
        (passes n i : ℕ)
        → n ≤ passes
        → i < n
        → get_elem? (cycled passes n rows) i ≡ get_elem? rows (i % length rows)
    unfolding cycled
    get_elem?-cycled zero n i h lt = absurd (omega arith)
    get_elem?-cycled (suc passes) n i h lt = elim (Bool-cases (leb n (length rows))) [
      | inl e ↦
          rw e
            (get_elem?-take n i rows lt ∙ ap (get_elem? rows) (sym (mod-eq_of_lt (ground arith))))
      | inr e ↦ rw e (elim (Bool-cases (leb (length rows) i)) [
        | inl f ↦
            get_elem?-append_right rows (cycled passes (n - length rows) rows) i (ground arith)
            ∙ get_elem?-cycled passes (n - length rows) (i - length rows) (ground arith)
                (ground arith)
            ∙ ap (get_elem? rows) (sym (mod-eq-sub-mod (ground arith)))
        | inr f ↦
            get_elem?-append_left rows (cycled passes (n - length rows) rows) i (ground arith)
            ∙ ap (get_elem? rows) (sym (mod-eq_of_lt (ground arith)))
      ])
    ]

  cycled-nil : (passes n : ℕ) → 1 ≤ n → cycled {A = A} passes n [] ≡ []
  unfolding cycled
  cycled-nil zero n h = refl
  cycled-nil (suc passes) zero h = absurd (omega arith)
  cycled-nil (suc passes) (suc n) h = ground (arith, cycled-nil passes (suc n - 0) (omega arith))

  -- With cycle=True, where a pass has a row: n rows are streamed for every n, within n passes, and the
  -- i-th is the row i modulo the length of a pass. Where a pass has none, no number of passes gives one.
  pub stream_rows-cycle :
      (max_rows : Option ℕ) (file : List A) (passes n : ℕ)
      → let pass = one_pass max_rows file in
        let rows = stream_rows passes max_rows true n file in
        (1 ≤ length pass
          → n ≤ passes
          → (length rows ≡ n)
            × ((i : ℕ) → i < n → get_elem? rows i ≡ get_elem? pass (i % length pass)))
        × (pass ≡ [] → 1 ≤ n → rows ≡ [])
  unfolding stream_rows
  stream_rows-cycle max_rows file passes n = (
    (λ h le. (
      length-cycled (one_pass max_rows file) h passes n le,
      λ i lt. get_elem?-cycled (one_pass max_rows file) h passes n i le lt,
    )),
    λ e h. rw e (cycled-nil passes n h),
  )
