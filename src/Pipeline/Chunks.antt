-- ===== src/Pipeline/Chunks.antt =====
-- higgs_pipeline_tasks.py, `_chunked`: the rows of one INSERT stay under PostgreSQL's limit on bind
-- parameters.
use agentic_ml_engineering_l.Base.{
  ℕ, zero, suc, ◌≤◌, ◌≡◌, refl, ap, ◌∙◌, List, [], ◌∷◌, ◌++◌, length, take, drop, take-append-drop,
  length-take, length-drop, All, arith,
}

-- What PostgreSQL takes in one query.
abbrev pub upsert_batch_size : ℕ
upsert_batch_size = 2000

module _ {A : Type 0} where
  -- rows[i : i + size] for i in range(0, len(rows), size), with a slice for each unit of fuel at most.
  chunks : ℕ → ℕ → List A → List (List A)
  chunks zero size rows = []
  chunks (suc fuel) size [] = []
  chunks (suc fuel) size (r ∷ rows) = take size (r ∷ rows) ∷ chunks fuel size (drop size (r ∷ rows))

  unfoldable pub chunked : List A → ℕ → List (List A)
  unfolding chunks
  chunked rows size = chunks (length rows) size rows

  abbrev pub concat : List (List A) → List A
  concat [] = []
  concat (b ∷ bs) = b ++ concat bs

  -- A slice is not empty and fits into one statement.
  abbrev pub Fits : ℕ → List A → Type 0
  Fits size b = (1 ≤ length b) × (length b ≤ size)

  concat-chunks :
      (fuel size : ℕ) (rows : List A)
      → 1 ≤ size
      → length rows ≤ fuel
      → concat (chunks fuel size rows) ≡ rows
  unfolding chunks
  concat-chunks zero size [] p h = refl
  concat-chunks zero size (r ∷ rows) p h = absurd (omega arith)
  concat-chunks (suc fuel) size [] p h = refl
  concat-chunks (suc fuel) size (r ∷ rows) p h =
      ap (λ (l : List A). take size (r ∷ rows) ++ l)
        (concat-chunks fuel size (drop size (r ∷ rows)) p
          (omega (arith, length-drop size (r ∷ rows))))
      ∙ take-append-drop size (r ∷ rows)

  chunks-Fits : (fuel size : ℕ) (rows : List A) → 1 ≤ size → All (Fits size) (chunks fuel size rows)
  unfolding chunks
  chunks-Fits zero size rows p = tt
  chunks-Fits (suc fuel) size [] p = tt
  chunks-Fits (suc fuel) size (r ∷ rows) p = (
    (omega (arith, length-take size (r ∷ rows)), omega (arith, length-take size (r ∷ rows))),
    chunks-Fits fuel size (drop size (r ∷ rows)) p,
  )

  -- For a positive size the slices, one after another, are the rows in their order, and each slice
  -- has at least one row and at most `size`.
  pub chunked_lem :
      (rows : List A) (size : ℕ)
      → 1 ≤ size
      → (concat (chunked rows size) ≡ rows) × All (Fits size) (chunked rows size)
  unfolding chunked
  chunked_lem rows size p =
      (concat-chunks (length rows) size rows p (omega arith), chunks-Fits (length rows) size rows p)
