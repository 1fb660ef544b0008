-- ===== src/Training/Split.antt =====
-- split.py: the three-way split. train_test_split of scikit-learn is a parameter of the size, the seed,
-- the labels to stratify by and the rows: its two parts are the rows in some order, and it may raise.
pub mod Partition
use mathlib.Core.List.{Permᴰ}
use agentic_ml_engineering_l.Base.{
  ℕ, String, Bool, true, false, ◌&&◌, ◌==◌, Option, none, some, List, [], ◌∷◌, ◌++◌, map, length,
  if◌then◌else◌, Exc, Result, ok, raise, value_error, ◌≡◌,
}
use agentic_ml_engineering_l.Base.Equality.{string_eq}
use agentic_ml_engineering_l.Training.{Row, Arithmetic}

pub record Splitter (R : Type 0) : Type 0 where
  pub train_test_split :
      R → ℕ → List (Option R) → List (Row R) → Result (List (Row R) × List (Row R))
  pub train_test_split-Perm :
      (size : R) (seed : ℕ) (stratify : List (Option R)) (rows a b : List (Row R))
      → train_test_split size seed stratify rows ≡ ok (a, b)
      → Permᴰ rows (a ++ b)

-- X and y of a part are its rows.
pub record Splits (R : Type 0) : Type 0 where
  pub train : List (Row R)
  pub validation : List (Row R)
  pub test : List (Row R)

-- df[TARGET_COLUMN]
abbrev pub targets : {R : Type 0} → List (Row R) → List (Option R)
targets rows = map (λ r. r.cell "target") rows

abbrev pub map_cell {ℓ} : {R : Type ℓ} → (R → R) → Option R → Option R
map_cell f none = none
map_cell f (some v) = some (f v)

-- df[FEATURE_COLUMNS].astype("float32")
unfoldable pub narrow : {R : Type 0} → Arithmetic R → Row R → Row R
narrow num r = record r {
  cell = λ c. if c == "target" then r.cell c else map_cell num.float32 (r.cell c);
}

module _ {R : Type 0} (num : Arithmetic R) (sk : Splitter R) (seed : ℕ)
    (validation_fraction test_fraction : R) where
  second : List (Row R) → Result (List (Row R) × List (Row R)) → Result (Splits R)
  second test (raise e) = raise e
  second test (ok (train, validation)) =
      ok (record { train = train; validation = validation; test = test })

  first : Result (List (Row R) × List (Row R)) → Result (Splits R)
  unfolding second
  first (raise e) = raise e
  first (ok (rest, test)) = second test (
      sk.train_test_split (num.over validation_fraction (num.minus num.one test_fraction)) seed
        (targets rest) rest)

  unfoldable pub split_frame : List (Row R) → Result (Splits R)
  unfolding first narrow
  split_frame rows =
      let share = num.plus validation_fraction test_fraction in
      if num.lt num.zero share && num.lt share num.one
      then first (sk.train_test_split test_fraction seed (targets rows) (map (narrow num) rows))
      else raise (value_error "validation_fraction + test_fraction must be in (0, 1)")

-- Splits.sizes
abbrev pub sizes : {R : Type 0} → Splits R → ℕ × ℕ × ℕ
sizes s = (length s.train, length s.validation, length s.test)
