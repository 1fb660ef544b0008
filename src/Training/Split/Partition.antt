-- ===== src/Training/Split/Partition.antt =====
-- split.py: each row goes to one part, and the test part does not see the validation fraction.
use mathlib.Core.List.{Permᴰ}
use agentic_ml_engineering_l.Base.{
  Option, ℕ, suc, ◌+◌, List, [], ◌∷◌, ◌++◌, map, length, length-append, ◌≡◌, refl, sym, ap, ◌∙◌,
  Result, ok, raise, Exc, Result-cases, false, ◌⊎◌, Bool-cases, inl, inr, ◌&&◌, arith,
}
use agentic_ml_engineering_l.Base.Perm.{length-Perm, Perm-append}
use agentic_ml_engineering_l.Training.{Row, Arithmetic}
use agentic_ml_engineering_l.Training.Split.{
  targets, Splitter, Splits, narrow, first, second, split_frame,
}

length-map : {A B : Type 0} (f : A → B) (xs : List A) → length (map f xs) ≡ length xs
length-map f [] = refl
length-map f (x ∷ xs) = ap (λ n. suc n) (length-map f xs)

-- What `ok` and `raise` hold.
result_ok : {A : Type 0} (a b : A) → ok a ≡ ok b → a ≡ b
result_ok a b e = cc

module _ {R : Type 0} (num : Arithmetic R) (sk : Splitter R) (seed : ℕ) (v t : R) where
  -- The rows of the three parts are the rows, in some order.
  abbrev pub IsPartition : List (Row R) → Splits R → Type 0
  IsPartition rows s = Permᴰ rows ((s.train ++ s.validation) ++ s.test)

  second_lem :
      (test : List (Row R)) (p : Result (List (Row R) × List (Row R))) (s : Splits R)
      → second num sk seed v t test p ≡ ok s
      → (p ≡ ok (s.train, s.validation)) × (test ≡ s.test)
  unfolding second
  second_lem test (raise e) s h = absurd cc
  second_lem test (ok (train, validation)) s h =
      let e = result_ok _ s h in (ap (λ x. ok (x.train, x.validation)) e, ap (λ x. x.test) e)

  first_lem :
      (p : Result (List (Row R) × List (Row R))) (s : Splits R)
      → first num sk seed v t p ≡ ok s
      → (rest : List (Row R)) × (p ≡ ok (rest, s.test)) × Permᴰ rest (s.train ++ s.validation)
  unfolding first
  first_lem (raise e) s h = absurd cc
  first_lem (ok (rest, test)) s h =
      let q = second_lem test _ s h in
      (
        rest,
        ap (λ x. ok (rest, x)) q.1,
        sk.train_test_split-Perm _ seed (targets rest) rest _ _ q.0,
      )

  split_frame_lem :
      (rows : List (Row R)) (s : Splits R)
      → split_frame num sk seed v t rows ≡ ok s
      → first num sk seed v t (sk.train_test_split t seed (targets rows) (map (narrow num) rows))
        ≡ ok s
  unfolding split_frame
  split_frame_lem rows s h =
      let share = num.plus v t in
      elim (Bool-cases (num.lt num.zero share && num.lt share num.one)) [
        | inl e ↦ rw e at h
        | inr e ↦ absurd (let k = rw e at h in cc)
      ]

  -- What split_frame returns.
  split_frame-IsPartition :
      (rows : List (Row R)) (s : Splits R)
      → split_frame num sk seed v t rows ≡ ok s
      → IsPartition (map (narrow num) rows) s
        × (length s.train + length s.validation + length s.test ≡ length rows)
  split_frame-IsPartition rows s h =
      let (rest, e, p) = first_lem _ s (split_frame_lem rows s h) in
      let q =
        Permᴰ.trans
          (sk.train_test_split-Perm t seed (targets rows) (map (narrow num) rows) rest s.test e)
          (Perm-append s.test p) in
      (
        q,
        omega (
          arith,
          length-Perm q,
          length-map (narrow num) rows,
          length-append (s.train ++ s.validation) s.test,
          length-append s.train s.validation,
        ),
      )

  -- A call of train_test_split for this run raises the exception.
  abbrev pub SplitRaises : Exc → Type 0
  SplitRaises e =
      (size : R) × (labels : List (Option R)) × (rows : List (Row R)) × (sk.train_test_split size
          seed labels rows
        ≡ raise e)

  second-raise :
      (test : List (Row R)) (p : Result (List (Row R) × List (Row R))) (e : Exc)
      → second num sk seed v t test p ≡ raise e
      → p ≡ raise e
  unfolding second
  second-raise test (raise f) e h = cc
  second-raise test (ok p) e h = absurd cc

  first-raise :
      (labels : List (Option R)) (rows : List (Row R)) (p : Result (List (Row R) × List (Row R)))
      (e : Exc)
      → sk.train_test_split t seed labels rows ≡ p
      → first num sk seed v t p ≡ raise e
      → SplitRaises e
  unfolding first
  first-raise labels rows (raise f) e q h = (t, labels, rows, q ∙ cc)
  first-raise labels rows (ok (rest, test)) e q h = (_, targets rest, rest, second-raise test _ e h)

  split_frame-raise :
      (rows : List (Row R)) (e : Exc)
      → split_frame num sk seed v t rows ≡ raise e
      → let share = num.plus v t in
        (num.lt num.zero share && num.lt share num.one ≡ false) ⊎ SplitRaises e
  unfolding split_frame
  split_frame-raise rows e h =
      let share = num.plus v t in
      elim (Bool-cases (num.lt num.zero share && num.lt share num.one)) [
        | inl b ↦ inr (first-raise (targets rows) (map (narrow num) rows) _ e refl (rw b at h))
        | inr b ↦ inl b
      ]

  -- split_frame returns three parts whose rows are the rows of the frame, narrowed to float32, in
  -- some order, and whose sizes add up to the number of rows; or it raises, and then the sum of the
  -- fractions is not between 0 and 1, or a call of train_test_split raised the same exception.
  pub split_frame-Partition :
      (rows : List (Row R))
      → ((s : Splits R) × (split_frame num sk seed v t rows ≡ ok s)
          × IsPartition (map (narrow num) rows) s
          × (length s.train + length s.validation + length s.test ≡ length rows))
        ⊎ ((e : Exc) × (split_frame num sk seed v t rows ≡ raise e)
            × (let share = num.plus v t in
                (num.lt num.zero share && num.lt share num.one ≡ false) ⊎ SplitRaises e))
  split_frame-Partition rows = elim (Result-cases (split_frame num sk seed v t rows)) [
    | inl (e, h) ↦ inr (e, h, split_frame-raise rows e h)
    | inr (s, h) ↦ let (p, q) = split_frame-IsPartition rows s h in inl (s, h, p, q)
  ]

-- Where split_frame returns for two validation fractions, on one frame with one seed and one test
-- fraction, the two test parts are the same rows in the same order.
pub split_frame-same_test :
    {R : Type 0} (num : Arithmetic R) (sk : Splitter R) (seed : ℕ) (v w t : R) (rows : List (Row R))
    (a b : Splits R)
    → split_frame num sk seed v t rows ≡ ok a
    → split_frame num sk seed w t rows ≡ ok b
    → a.test ≡ b.test
split_frame-same_test num sk seed v w t rows a b h k =
    let (rest, e, p) = first_lem num sk seed v t _ a (split_frame_lem num sk seed v t rows a h) in
    let (rest', e', p') =
      first_lem num sk seed w t _ b (split_frame_lem num sk seed w t rows b k) in
    ap (λ x. x.1) (result_ok (rest, a.test) (rest', b.test) (sym e ∙ e'))
