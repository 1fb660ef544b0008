-- ===== src/Training/Steps.antt =====
-- steps.py: the run as steps from files to files. A file is read back as it was written; the directory
-- in front of each path is left out.
pub mod Same
pub mod Guarded
use agentic_ml_engineering_l.Base.{
  ℕ, String, Bool, true, false, Option, none, some, List, [], ◌∷◌, ◌++◌, ◌==◌, length,
  if◌then◌else◌, Exc, Result, ok, raise, other_exception,
}
use agentic_ml_engineering_l.Base.Dict.{Dict, get, put}
use agentic_ml_engineering_l.Base.Equality.{string_eq}
use agentic_ml_engineering_l.Schemas.Features.{higgs_feature_names}
use agentic_ml_engineering_l.Db.Models.{CuratedHiggsLabel}
use agentic_ml_engineering_l.Training.{
  Row, Frame, TrainingConfig, TreeParams, tree_params, Arithmetic,
}
use agentic_ml_engineering_l.Training.Dataset.{load_training_frame, feature_view_version}
use agentic_ml_engineering_l.Training.Split.{Splits, sizes, split_frame}
use agentic_ml_engineering_l.Training.Checks.{Labels, Report, validate_training_dataset}
use agentic_ml_engineering_l.Training.Run.{
  Tools, DatasetVersion, dataset_version, evaluate_part, LoggedRun, Mlflow, register, version_tags,
  git_sha, or_else, or_now, TrainingResult,
}

-- The contents of a file.
pub data Artifact (R M : Type 0) : Type 0 where
  parquet : Frame R → Artifact R M
  version_json : DatasetVersion R → ℕ → Artifact R M
  report_json : Report R → Artifact R M
  sizes_json : ℕ × ℕ × ℕ → Artifact R M
  skops : M → Artifact R M
  model_json : TreeParams → R → Artifact R M
  metrics_json : Dict String R → Artifact R M

abbrev pub Files : Type 0 → Type 0 → Type 0
Files R M = Dict String (Artifact R M)

module _ {R M : Type 0} where
  -- What a step reads; a file that is missing or of another kind raises.
  abbrev frame_of : Option (Artifact R M) → Result (Frame R)
  frame_of (some (parquet df)) = ok df
  frame_of _ = raise (other_exception "read_parquet")

  abbrev model_of : Option (Artifact R M) → Result M
  model_of (some (skops model)) = ok model
  model_of _ = raise (other_exception "sio.load")

  abbrev version_of : Option (Artifact R M) → Result (DatasetVersion R × ℕ)
  version_of (some (version_json version as_of)) = ok (version, as_of)
  version_of _ = raise (other_exception "json.loads")

  abbrev metrics_of : Option (Artifact R M) → Result (Dict String R)
  metrics_of (some (metrics_json metrics)) = ok metrics
  metrics_of _ = raise (other_exception "json.loads")

  abbrev sizes_of : Option (Artifact R M) → Result (ℕ × ℕ × ℕ)
  sizes_of (some (sizes_json s)) = ok s
  sizes_of _ = raise (other_exception "json.loads")

  abbrev fit_seconds_of : Option (Artifact R M) → Result R
  fit_seconds_of (some (model_json params seconds)) = ok seconds
  fit_seconds_of _ = raise (other_exception "json.loads")

-- A step, and what follows it where it does not raise.
abbrev pub chain : {S A B : Type 0} → Result A × S → (A → S → Result B × S) → Result B × S
chain (raise e, s) next = (raise e, s)
chain (ok a, s) next = next a s

-- A value that a step has read or computed.
abbrev pub bind : {S A B : Type 0} → S → Result A → (A → Result B × S) → Result B × S
bind s (raise e) next = (raise e, s)
bind s (ok a) next = next a

abbrev pub min_rows : ℕ
min_rows = 1000

module _ {R M : Type 0} (tools : Tools R M) (labels : Labels R) (max_class_imbalance : R) where
  framed : TrainingConfig R → Files R M → Frame R → Result (DatasetVersion R) × Files R M
  unfolding put dataset_version feature_view_version
  framed cfg files df =
      let version =
        dataset_version tools df cfg.feature_view
          (feature_view_version tools.feast cfg.feature_view) in
      (
        ok version,
        put "dataset_version.json" (version_json version (or_now tools cfg.as_of))
            (put "dataset.parquet" (parquet df) files),
      )

  -- TrainingConfig(max_rows=..., as_of=..., feature_repo_path=...): the other settings are `env`, those
  -- of the environment.
  unfoldable pub load_training_dataset :
      TrainingConfig R
      → ℕ
      → Option ℕ
      → String
      → List CuratedHiggsLabel
      → Files R M
      → Result (DatasetVersion R) × Files R M
  unfolding framed load_training_frame
  load_training_dataset env max_rows as_of feature_repo_path rows files =
      let cfg = record env {
        max_rows = max_rows;
        as_of = as_of;
        feature_repo_path = feature_repo_path;
      } in
      bind files (load_training_frame tools.sql tools.feast cfg rows) (framed cfg files)

  validated : Files R M → Frame R → Result (Report R) × Files R M
  unfolding put validate_training_dataset
  validated files df =
      let (result, report) =
        validate_training_dataset tools.num labels min_rows max_class_imbalance df in
      (result, put "validation.json" (report_json report) files)

  unfoldable pub validate_step : Files R M → Result (Report R) × Files R M
  unfolding get validated
  validate_step files = bind files (frame_of (get "dataset.parquet" files)) (validated files)

  -- X.assign(target=y)
  part : List (Row R) → Artifact R M
  part rows = parquet (record { columns = higgs_feature_names ++ "target" ∷ []; rows = rows })

  split_files : Files R M → Splits R → Result (ℕ × ℕ × ℕ) × Files R M
  unfolding put part
  split_files files s = (
    ok (sizes s),
    put "splits/split_sizes.json" (sizes_json (sizes s)) (
        put "splits/test.parquet" (part s.test) (
          put "splits/validation.parquet" (part s.validation)
            (put "splits/train.parquet" (part s.train) files))),
  )

  unfoldable pub split_dataset : ℕ → R → R → Files R M → Result (ℕ × ℕ × ℕ) × Files R M
  unfolding get split_files split_frame
  split_dataset seed validation_fraction test_fraction files =
      bind files (frame_of (get "dataset.parquet" files)) (λ df.
        bind files
          (split_frame tools.num tools.splitter seed validation_fraction test_fraction df.rows)
          (split_files files))

  model_files : TreeParams → Files R M → M → Result (Unit {0}) × Files R M
  unfolding put
  model_files params files model = (
    ok tt,
    put "model.json" (model_json params tools.lib.fit_seconds)
        (put "model.skops" (skops model) files),
  )

  unfoldable pub train_model : TreeParams → Files R M → Result (Unit {0}) × Files R M
  unfolding get model_files
  train_model params files =
      bind files (frame_of (get "splits/train.parquet" files))
        (λ df. bind files (tools.lib.fit params df.rows) (model_files params files))

  evaluated : Files R M → M → Frame R → Frame R → Result (Dict String R) × Files R M
  unfolding put evaluate_part
  evaluated files model validation test =
      let metrics =
        evaluate_part tools model "test" test.rows
          (evaluate_part tools model "validation" validation.rows []) in
      (ok metrics, put "evaluation/metrics.json" (metrics_json metrics) files)

  unfoldable pub evaluate_model : Files R M → Result (Dict String R) × Files R M
  unfolding get evaluated
  evaluate_model files = bind files (model_of (get "model.skops" files)) (λ model.
      bind files (frame_of (get "splits/validation.parquet" files)) (λ validation.
        bind files (frame_of (get "splits/test.parquet" files)) (evaluated files model validation)))

  -- The run and the registered version of register_model; `sha` is its argument git_sha.
  register_read :
      String
      → Option String
      → TreeParams
      → M
      → Dict String R
      → DatasetVersion R × ℕ
      → ℕ × ℕ × ℕ
      → R
      → Mlflow R M
      → Result (String × ℕ) × Mlflow R M
  unfolding register version_tags put
  register_read alias sha params model metrics (version, as_of) split_sizes seconds w =
      let run_id = tools.run_id (length w.runs) in
      let run : LoggedRun R = record {
        params = params;
        as_of = as_of;
        dataset = version;
        git_sha = or_else sha "unknown";
        split_sizes = split_sizes;
        metrics = put "fit_seconds" seconds metrics;
      } in
      chain
        (register tools alias run_id model (version_tags tools sha version metrics)
          (record w { runs = w.runs ++ run ∷ [] }))
        (λ v w. (ok (run_id, v), w))

  unfoldable pub register_model :
      String
      → Option String
      → TreeParams
      → Files R M
      → Mlflow R M
      → Result (String × ℕ) × Mlflow R M
  unfolding get register_read
  register_model alias sha params files w = bind w (model_of (get "model.skops" files)) (λ model.
      bind w (metrics_of (get "evaluation/metrics.json" files)) (λ metrics.
        bind w (version_of (get "dataset_version.json" files)) (λ version.
          bind w (sizes_of (get "splits/split_sizes.json" files)) (λ split_sizes.
            bind w (fit_seconds_of (get "model.json" files)) (λ seconds.
              bind w (frame_of (get "splits/train.parquet" files)) (λ sample.
                register_read alias sha params model metrics version split_sizes seconds w))))))

  -- The first five steps, in a directory.
  prepared :
      TrainingConfig R
      → TrainingConfig R
      → List CuratedHiggsLabel
      → Files R M
      → Result (DatasetVersion R × Dict String R) × Files R M
  unfolding load_training_dataset validate_step split_dataset train_model evaluate_model
  prepared env cfg rows files =
      chain (load_training_dataset env cfg.max_rows cfg.as_of cfg.feature_repo_path rows files)
        (λ version files. chain (validate_step files) (λ _ files.
          chain (split_dataset cfg.random_seed cfg.validation_fraction cfg.test_fraction files)
            (λ _ files. chain (train_model (tree_params cfg) files) (λ _ files.
              chain (evaluate_model files) (λ metrics files. (ok (version, metrics), files))))))

  result :
      DatasetVersion R × Dict String R
      → Result (String × ℕ) × Mlflow R M
      → Result (TrainingResult R) × Mlflow R M
  result (version, metrics) out = chain out (λ (run_id, v) w. (
    ok (record {
      run_id = run_id;
      model_version = v;
      metrics = metrics;
      dataset_fingerprint = version.fingerprint;
    }),
    w,
  ))

  register_prepared :
      TrainingConfig R
      → Result (DatasetVersion R × Dict String R) × Files R M
      → Mlflow R M
      → Result (TrainingResult R) × Mlflow R M
  unfolding result register_model git_sha
  register_prepared cfg (raise e, files) w = (raise e, w)
  register_prepared cfg (ok p, files) w =
      result p (
        register_model cfg.candidate_alias (git_sha cfg.git_sha tools.git) (tree_params cfg) files
          w)

  -- The six steps in an empty directory.
  unfoldable pub run_all :
      TrainingConfig R
      → TrainingConfig R
      → List CuratedHiggsLabel
      → Mlflow R M
      → Result (TrainingResult R) × Mlflow R M
  unfolding prepared register_prepared
  run_all env cfg rows w = register_prepared cfg (prepared env cfg rows []) w
