-- ===== src/Training.antt =====
-- ml/training/src/amel_training: the dataset, the split, the checks, a run, its steps, and the
-- promotion of a model version. R: Python's float.
pub mod Dataset
pub mod Split
pub mod Checks
pub mod Run
pub mod Steps
pub mod Promote
use agentic_ml_engineering_l.Base.{ℕ, String, Option, none, some, List, Bool}

-- A row of a data frame: `cell` is its numeric columns, with none for NaN.
pub record Row (R : Type 0) : Type 0 where
  pub entity_id : String
  pub event_timestamp : ℕ
  pub cell : String → Option R

-- A data frame; `columns` are the numeric ones.
pub record Frame (R : Type 0) : Type 0 where
  pub columns : List String
  pub rows : List (Row R)

-- The settings of a run, without those of the promotion.
pub record TrainingConfig (R : Type 0) : Type 0 where
  pub feature_repo_path : String
  pub feature_view : String
  pub max_rows : ℕ
  pub as_of : Option ℕ
  pub random_seed : ℕ
  pub validation_fraction : R
  pub test_fraction : R
  pub criterion : String
  pub max_depth : Option ℕ
  pub min_samples_leaf : ℕ
  pub registered_model_name : String
  pub candidate_alias : String
  pub git_sha : Option String

-- The parameters of the classifier.
pub record TreeParams : Type 0 where
  pub criterion : String
  pub max_depth : Option ℕ
  pub min_samples_leaf : ℕ
  pub random_state : ℕ

abbrev pub tree_params : {R : Type 0} → TrainingConfig R → TreeParams
tree_params cfg = record {
  criterion = cfg.criterion;
  max_depth = cfg.max_depth;
  min_samples_leaf = cfg.min_samples_leaf;
  random_state = cfg.random_seed;
}

-- The arithmetic of floats, with 0, 1 and astype("float32").
pub record Arithmetic (R : Type 0) : Type 0 where
  pub lt : R → R → Bool
  pub plus : R → R → R
  pub minus : R → R → R
  pub over : R → R → R
  pub zero : R
  pub one : R
  pub float32 : R → R
