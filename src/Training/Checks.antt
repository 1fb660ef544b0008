-- ===== src/Training/Checks.antt =====
-- steps.py, `validate_training_dataset`: the report on a frame, and the exception where it is not valid.
pub mod Valid
use agentic_ml_engineering_l.Base.{
  ℕ, String, Bool, true, false, not, ◌&&◌, ◌||◌, Option, none, some, is_some, List, [], ◌∷◌, ◌++◌,
  length, if◌then◌else◌, ltb, Exc, Result, ok, raise, value_error,
}
use agentic_ml_engineering_l.Schemas.Features.{higgs_feature_names, member}
use agentic_ml_engineering_l.Training.{Row, Frame, Arithmetic}

-- The problems, without their layout as text.
pub data Problem (R : Type 0) : Type 0 where
  too_few_rows : ℕ → ℕ → Problem R
  missing_columns : List String → Problem R
  nans : List String → Problem R
  missing_target : Problem R
  bad_target : Problem R
  class_imbalance : R → Problem R

pub record Report (R : Type 0) : Type 0 where
  pub rows : ℕ
  pub columns : ℕ
  pub positive_fraction : Option R
  pub problems : List (Problem R)
  pub valid : Bool

-- The mean of a column and the labels 0 and 1 of float, with the two other columns of a frame counted.
pub record Labels (R : Type 0) : Type 0 where
  pub mean : List (Row R) → R
  pub is_label : R → Bool
  pub number_of_columns : Frame R → ℕ

module _ {R : Type 0} (num : Arithmetic R) (labels : Labels R) (min_rows : ℕ)
    (max_class_imbalance : R) where
  -- [c for c in FEATURE_COLUMNS if c not in df.columns]
  unfoldable pub absent : List String → List String → List String
  unfolding member
  absent columns [] = []
  absent columns (c ∷ cs) =
      let rest = absent columns cs in if member c columns then rest else c ∷ rest

  -- df[c].isna().any()
  unfoldable pub has_nan : String → List (Row R) → Bool
  has_nan c [] = false
  has_nan c (r ∷ rs) = not (is_some (r.cell c)) || has_nan c rs

  unfoldable pub nan_columns : List (Row R) → List String → List String
  unfolding has_nan
  nan_columns rows [] = []
  nan_columns rows (c ∷ cs) =
      let rest = nan_columns rows cs in if has_nan c rows then c ∷ rest else rest

  -- A missing label is not in {0, 1}.
  abbrev pub label_of : Option R → Bool
  label_of none = false
  label_of (some v) = labels.is_label v

  -- set(df["target"].unique()) <= {0, 1}
  unfoldable pub binary : List (Row R) → Bool
  binary [] = true
  binary (r ∷ rs) = label_of (r.cell "target") && binary rs

  -- max(share, 1 - share)
  unfoldable pub majority : R → R
  majority share =
      let other = num.minus num.one share in if num.lt share other then other else share

  row_problems : Frame R → List (Problem R)
  row_problems df =
      if ltb (length df.rows) min_rows then too_few_rows (length df.rows) min_rows ∷ [] else []

  nan_problems : List String → List (Problem R)
  nan_problems [] = []
  nan_problems (c ∷ cs) = nans (c ∷ cs) ∷ []

  column_problems : List String → List String → Frame R → List (Problem R)
  unfolding nan_problems nan_columns
  column_problems names [] df = nan_problems (nan_columns df.rows names)
  column_problems names (c ∷ cs) df = missing_columns (c ∷ cs) ∷ []

  balance_problems : List (Row R) → List (Problem R)
  unfolding majority
  balance_problems [] = []
  balance_problems (r ∷ rs) =
      let share = majority (labels.mean (r ∷ rs)) in
      if num.lt max_class_imbalance share then class_imbalance share ∷ [] else []

  target_problems : Frame R → List (Problem R)
  unfolding member binary balance_problems
  target_problems df =
      if not (member "target" df.columns)
      then missing_target ∷ []
      else if not (binary df.rows)
      then bad_target ∷ []
      else balance_problems df.rows

  -- `names` are FEATURE_COLUMNS.
  problems_with : List String → Frame R → List (Problem R)
  unfolding row_problems column_problems absent target_problems
  problems_with names df =
      row_problems df ++ (column_problems names (absent df.columns names) df ++ target_problems df)

  unfoldable pub problems_of : Frame R → List (Problem R)
  unfolding problems_with
  problems_of df = problems_with higgs_feature_names df

  abbrev pub no_problem : List (Problem R) → Bool
  no_problem [] = true
  no_problem (p ∷ ps) = false

  unfoldable pub report_of : Frame R → Report R
  unfolding problems_of member
  report_of df = record {
    rows = length df.rows;
    columns = labels.number_of_columns df;
    positive_fraction = if member "target" df.columns then some (labels.mean df.rows) else none;
    problems = problems_of df;
    valid = no_problem (problems_of df);
  }

  -- What is returned or raised, and the report, which is written first.
  unfoldable pub validate_training_dataset : Frame R → Result (Report R) × Report R
  unfolding report_of
  validate_training_dataset df =
      let report = report_of df in
      (
        if report.valid
            then ok report
            else raise (value_error "training dataset failed validation"),
        report,
      )
