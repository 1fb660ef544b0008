-- ===== src/Tests/TrainingRun.antt =====
-- Training runs on a frame of a thousand rows, and their parts at small inputs.
use mathlib.Core.List.{Permᴰ}
use agentic_ml_engineering_l.Base.{
  In, Exc, ℕ, zero, suc, ◌+◌, ◌-◌, ◌*◌, ◌/◌, String, true, false, none, some, is_some, List, [],
  ◌∷◌, ◌++◌, map, length, take, drop, take-append-drop, ltb, leb, ◌≡◌, refl, sym, ap, subst, ◌∙◌,
  ◌↔◌, ◌⊎◌, Result, ok, raise, value_error,
}
use agentic_ml_engineering_l.Base.Perm.{Perm-refl}
use agentic_ml_engineering_l.Base.Equality.{string_eq}
use agentic_ml_engineering_l.Schemas.Features.{higgs_feature_names}
use agentic_ml_engineering_l.Db.Models.{CuratedHiggsLabel}
use agentic_ml_engineering_l.Training.{Row, Frame, TrainingConfig, Arithmetic}
use agentic_ml_engineering_l.Training.Dataset.{
  Entity, Feast, with_target, load_entity_df, load_training_frame,
}
use agentic_ml_engineering_l.Training.Dataset.Newest.{IsLoaded, IsUntil, load_entity_df-IsNewest}
use agentic_ml_engineering_l.Training.Split.{Splitter, Splits, narrow, split_frame}
use agentic_ml_engineering_l.Training.Split.Partition.{
  IsPartition, SplitRaises, split_frame-Partition,
}
use agentic_ml_engineering_l.Training.Checks.{Labels, validate_training_dataset}
use agentic_ml_engineering_l.Training.Checks.Valid.{
  IsTrainable, validate_training_dataset-IsTrainable,
}
use agentic_ml_engineering_l.Training.Run.{Tools, Mlflow}
use agentic_ml_engineering_l.Training.Steps.{min_rows, run_all}
use agentic_ml_engineering_l.Training.Steps.Guarded.{loads, run_all-IsGuarded}
use agentic_ml_engineering_l.Tests.Sorted.{by_time, sorted}

-- A float is a number of hundredths.
abbrev num : Arithmetic ℕ
num = record {
  lt = ltb;
  plus = λ a b. a + b;
  minus = λ a b. a - b;
  over = λ a b. 100 * a / b;
  zero = 0;
  one = 100;
  float32 = λ v. v;
}

abbrev pair_of : Result (List (Row ℕ) × List (Row ℕ)) → List (Row ℕ)
pair_of (raise e) = []
pair_of (ok p) = p.0 ++ p.1

abbrev splits : ℕ → List (Row ℕ) → Result (List (Row ℕ) × List (Row ℕ))
splits n rows = ok (take n rows, drop n rows)

taken : (n : ℕ) (rows a b : List (Row ℕ)) → splits n rows ≡ ok (a, b) → Permᴰ rows (a ++ b)
taken n rows a b e =
    subst (λ l. Permᴰ rows l) (sym (take-append-drop n rows) ∙ ap pair_of e) (Perm-refl rows)

-- The first two rows are the first part.
abbrev splitter : Splitter ℕ
splitter = record {
  train_test_split = λ size seed stratify rows. splits 2 rows;
  train_test_split-Perm = λ size seed stratify rows a b e. taken 2 rows a b e;
}

abbrev a_row : String → Row ℕ
a_row id = record { entity_id = id; event_timestamp = 5; cell = λ c. some 1 }

abbrev three_rows : List (Row ℕ)
three_rows = a_row "a" ∷ a_row "b" ∷ a_row "c" ∷ []

abbrev parts : Splits ℕ
parts = record {
  train = narrow num (a_row "a") ∷ narrow num (a_row "b") ∷ [];
  validation = [];
  test = narrow num (a_row "c") ∷ [];
}

split_frame-three_rows : split_frame num splitter 42 15 15 three_rows ≡ ok parts
unfolding split_frame
split_frame-three_rows = refl

split_frame-Partition_example :
    ((s : Splits ℕ) × (split_frame num splitter 42 15 15 three_rows ≡ ok s)
      × IsPartition num splitter 42 15 15 (map (narrow num) three_rows) s
      × (length s.train + length s.validation + length s.test ≡ 3))
    ⊎ ((e : Exc) × (split_frame num splitter 42 15 15 three_rows ≡ raise e)
        × ((true ≡ false) ⊎ SplitRaises num splitter 42 15 15 e))
split_frame-Partition_example = split_frame-Partition num splitter 42 15 15 three_rows

abbrev label : String → ℕ → CuratedHiggsLabel
label id at = record {
  event_id = id;
  entity_id = id;
  target = 1;
  label_timestamp = at;
  schema_version = "1.0.0";
  source_run_id = "r";
}

abbrev some_labels : List CuratedHiggsLabel
some_labels = label "a" 3 ∷ label "b" 9 ∷ label "c" 5 ∷ []

load_entity_df-IsNewest_example :
    ((rows : List Entity)
      → load_entity_df by_time 2 (some 8) some_labels ≡ ok rows
      → IsLoaded 2 (some 8) some_labels rows)
    × ((l : CuratedHiggsLabel)
        → In l some_labels
        → IsUntil (some 8) l
        → (rows : List Entity) × (load_entity_df by_time 2 (some 8) some_labels ≡ ok rows))
load_entity_df-IsNewest_example = load_entity_df-IsNewest by_time 2 (some 8) some_labels

abbrev ids : Result (List Entity) → List String
ids (raise e) = []
ids (ok es) = map (λ (e : Entity). e.entity_id) es

-- The newest two labels up to 8.
load_entity_df-as_of : ids (load_entity_df by_time 2 (some 8) some_labels) ≡ "c" ∷ "a" ∷ []
unfolding load_entity_df sorted
load_entity_df-as_of = refl

abbrev repeated : ℕ → Row ℕ → List (Row ℕ)
repeated zero r = []
repeated (suc n) r = r ∷ repeated n r

abbrev thousand : Frame ℕ
thousand = record {
  columns = higgs_feature_names ++ "target" ∷ [];
  rows = repeated 1000 (a_row "a");
}

abbrev feast : Feast ℕ
feast = record {
  get_historical_features = λ entities names. ok thousand;
  int8 = λ v. v;
  version_tag = λ name. some "1";
}

abbrev checks : Labels ℕ
checks = record { mean = λ rows. 50; is_label = λ v. leb v 1; number_of_columns = λ df. 31 }

HasCell : Row ℕ → Type 0
HasCell r = (c : String) → is_some (r.cell c) ≡ true

-- The row that is loaded.
abbrev ready_row : Row ℕ
unfolding with_target
ready_row = with_target 1 (a_row "a")

abbrev ready : Frame ℕ
ready = record thousand { rows = repeated 1000 ready_row }

abbrev config : TrainingConfig ℕ
config = record {
  feature_repo_path = "/app/ml/feature_repo";
  feature_view = "higgs_features";
  max_rows = 2;
  as_of = some 8;
  random_seed = 42;
  validation_fraction = 15;
  test_fraction = 15;
  criterion = "gini";
  max_depth = some 8;
  min_samples_leaf = 200;
  registered_model_name = "higgs_decision_tree";
  candidate_alias = "candidate";
  git_sha = none;
}

validate_training_dataset-IsTrainable_example :
    let out = validate_training_dataset num checks min_rows 90 ready in
    ((out.0 ≡ ok out.1) ↔ IsTrainable num checks min_rows 90 higgs_feature_names ready)
    × ((out.0 ≡ ok out.1) ⊎ (out.0 ≡ raise (value_error "training dataset failed validation")))
validate_training_dataset-IsTrainable_example =
    validate_training_dataset-IsTrainable num checks min_rows 90 ready

abbrev tools : Tools ℕ ℕ
tools = record {
  num = num;
  splitter = splitter;
  sql = by_time;
  feast = feast;
  lib = record {
    fit = λ params rows. ok 7;
    predict = λ model rows. [];
    predict_proba = λ model rows. [];
    accuracy_score = λ y pred. 70;
    f1_score = λ y pred. 70;
    precision_score = λ y pred. 70;
    recall_score = λ y pred. 70;
    roc_auc_score = λ y proba. 75;
    log_loss = λ y proba. 50;
    fit_seconds = 3;
  };
  fingerprint = λ rows. "0123456789abcdef";
  n_entities = λ rows. 1;
  mean = λ rows. 50;
  git = none;
  now = 10;
  run_id = λ n. "run";
}

abbrev new_server : Mlflow ℕ ℕ
new_server = record { runs = []; versions = []; aliases = []; tags = [] }

run_all-IsGuarded_example :
    ((run_all tools checks 90 config config some_labels new_server).1 ≡ new_server)
    ⊎ ((df : Frame ℕ) × (load_training_frame by_time feast
            (loads tools checks 90 config config some_labels new_server)
            some_labels
          ≡ ok df)
        × IsTrainable num checks min_rows 90 higgs_feature_names df)
run_all-IsGuarded_example = run_all-IsGuarded tools checks 90 config config some_labels new_server
