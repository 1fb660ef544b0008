-- ===== src/Training/Run.antt =====
-- train.py, provenance.py and compute_metrics of evaluate.py: one training run in one process.
use agentic_ml_engineering_l.Base.{
  ℕ, suc, String, max, Option, none, some, List, [], ◌∷◌, ◌++◌, ◌==◌, length, if◌then◌else◌, Result,
  ok, raise, runtime_error,
}
use agentic_ml_engineering_l.Base.Dict.{Dict, get, put}
use agentic_ml_engineering_l.Base.Equality.{string_eq}
use agentic_ml_engineering_l.Db.Models.{CuratedHiggsLabel}
use agentic_ml_engineering_l.Training.{
  Row, Frame, TrainingConfig, TreeParams, tree_params, Arithmetic,
}
use agentic_ml_engineering_l.Training.Dataset.{
  Descending, Feast, load_training_frame, feature_view_version,
}
use agentic_ml_engineering_l.Training.Split.{Splitter, Splits, sizes, split_frame}
use Prim.Native.String.{◌++◌ as append}

-- The classifier, and the metrics of scikit-learn; M: a fitted model. The labels of rows are their
-- column "target".
pub record Sklearn (R M : Type 0) : Type 0 where
  pub fit : TreeParams → List (Row R) → Result M
  pub predict : M → List (Row R) → List ℕ
  pub predict_proba : M → List (Row R) → List R
  pub accuracy_score : List (Row R) → List ℕ → R
  pub f1_score : List (Row R) → List ℕ → R
  pub precision_score : List (Row R) → List ℕ → R
  pub recall_score : List (Row R) → List ℕ → R
  pub roc_auc_score : List (Row R) → List R → R
  pub log_loss : List (Row R) → List R → R
  pub fit_seconds : R

-- What a run uses; `git` is the answer of git rev-parse, `fingerprint` the hash of the sorted keyed
-- rows, `n_entities` the number of distinct entities, `run_id` the id that the
-- tracking server draws for its n-th run.
pub record Tools (R M : Type 0) : Type 0 where
  pub num : Arithmetic R
  pub splitter : Splitter R
  pub sql : Descending
  pub feast : Feast R
  pub lib : Sklearn R M
  pub fingerprint : List (Row R) → String
  pub n_entities : List (Row R) → ℕ
  pub mean : List (Row R) → R
  pub git : Option String
  pub now : ℕ
  pub run_id : ℕ → String

-- The smallest and greatest timestamps and the greatest entity id are left out.
pub record DatasetVersion (R : Type 0) : Type 0 where
  pub fingerprint : String
  pub n_rows : ℕ
  pub n_entities : ℕ
  pub positive_fraction : R
  pub feature_view : String
  pub feature_view_version : String

-- A run of the tracking server: what is logged before the fit, and the metrics. The parameters that
-- repeat the configuration or name the version of a library are left out.
pub record LoggedRun (R : Type 0) : Type 0 where
  pub params : TreeParams
  pub as_of : ℕ
  pub dataset : DatasetVersion R
  pub git_sha : String
  pub split_sizes : ℕ × ℕ × ℕ
  pub metrics : Dict String R

pub record ModelVersion (M : Type 0) : Type 0 where
  pub version : ℕ
  pub run_id : String
  pub model : M

-- The tag "orchestrator", which run_training does not set, is left out.
pub record VersionTags (R : Type 0) : Type 0 where
  pub git_sha : String
  pub dataset_fingerprint : String
  pub feature_view : String
  pub test_accuracy : Option R
  pub test_roc_auc : Option R

-- The tracking server and the versions, aliases and tags of the registered model.
pub record Mlflow (R M : Type 0) : Type 0 where
  pub runs : List (LoggedRun R)
  pub versions : List (ModelVersion M)
  pub aliases : Dict String ℕ
  pub tags : List (ℕ × VersionTags R)

abbrev pub or_else : Option String → String → String
or_else none d = d
or_else (some t) d = t

-- An explicit sha that is not empty, or what git says.
unfoldable pub git_sha : Option String → Option String → Option String
git_sha none git = git
git_sha (some t) git = if t == "" then git else some t

module _ {R M : Type 0} (tools : Tools R M) where
  unfoldable pub dataset_version : Frame R → String → String → DatasetVersion R
  dataset_version df feature_view feature_view_version = record {
    fingerprint = tools.fingerprint df.rows;
    n_rows = length df.rows;
    n_entities = tools.n_entities df.rows;
    positive_fraction = elim df.rows [ [] ↦ tools.num.zero | r ∷ rs ↦ tools.mean (r ∷ rs) ];
    feature_view = feature_view;
    feature_view_version = feature_view_version;
  }

  unfoldable pub compute_metrics : List (Row R) → List ℕ → List R → Dict String R
  compute_metrics y pred proba =
      ("accuracy", tools.lib.accuracy_score y pred)
      ∷ ("precision", tools.lib.precision_score y pred)
      ∷ ("recall", tools.lib.recall_score y pred)
      ∷ ("f1", tools.lib.f1_score y pred)
      ∷ ("roc_auc", tools.lib.roc_auc_score y proba)
      ∷ ("log_loss", tools.lib.log_loss y proba)
      ∷ []

  -- d.update({f"{name}_{k}": v for k, v in metrics.items()})
  unfoldable pub update : String → Dict String R → Dict String R → Dict String R
  unfolding put
  update name [] d = d
  update name ((k, v) ∷ metrics) d = update name metrics (put (append name (append "_" k)) v d)

  -- One turn of the loop over the validation and the test part.
  unfoldable pub evaluate_part : M → String → List (Row R) → Dict String R → Dict String R
  unfolding update compute_metrics
  evaluate_part model name rows d =
      update name
        (compute_metrics rows (tools.lib.predict model rows) (tools.lib.predict_proba model rows)) d

  -- max(versions, key=lambda v: int(v.version))
  greatest : ModelVersion M → List (ModelVersion M) → ℕ
  greatest v [] = v.version
  greatest v (w ∷ ws) = max v.version (greatest w ws)

  unfoldable pub of_run : String → List (ModelVersion M) → List (ModelVersion M)
  of_run run_id [] = []
  of_run run_id (v ∷ vs) =
      let rest = of_run run_id vs in if v.run_id == run_id then v ∷ rest else rest

  latest : String → List (ModelVersion M) → Result ℕ
  unfolding greatest
  latest run_id [] = raise (runtime_error "model registration did not produce a version")
  latest run_id (v ∷ vs) = ok (greatest v vs)

  unfoldable pub model_version_for_run : String → List (ModelVersion M) → Result ℕ
  unfolding latest of_run
  model_version_for_run run_id versions = latest run_id (of_run run_id versions)

  -- log_model with registered_model_name: MLflow gives the next version.
  unfoldable pub log_model : String → M → Mlflow R M → Mlflow R M
  log_model run_id model w = record w {
    versions =
        w.versions
        ++ record { version = suc (length w.versions); run_id = run_id; model = model } ∷ [];
  }

  unfoldable pub aliased : String → VersionTags R → Result ℕ → Mlflow R M → Result ℕ × Mlflow R M
  unfolding put
  aliased alias tags (raise e) w = (raise e, w)
  aliased alias tags (ok v) w =
      (ok v, record w { aliases = put alias v w.aliases; tags = w.tags ++ (v, tags) ∷ [] })

  -- The model is registered, its version found, aliased and tagged.
  unfoldable pub register : String → String → M → VersionTags R → Mlflow R M → Result ℕ × Mlflow R M
  unfolding log_model aliased model_version_for_run
  register alias run_id model tags w =
      let logged = log_model run_id model w in
      aliased alias tags (model_version_for_run run_id logged.versions) logged

  unfoldable pub version_tags : Option String → DatasetVersion R → Dict String R → VersionTags R
  unfolding get
  version_tags sha version metrics = record {
    git_sha = or_else sha "unknown";
    dataset_fingerprint = version.fingerprint;
    feature_view = append version.feature_view (append ":v" version.feature_view_version);
    test_accuracy = get "test_accuracy" metrics;
    test_roc_auc = get "test_roc_auc" metrics;
  }

  abbrev pub or_now : Option ℕ → ℕ
  or_now none = tools.now
  or_now (some t) = t

-- The duration is left out.
pub record TrainingResult (R : Type 0) : Type 0 where
  pub run_id : String
  pub model_version : ℕ
  pub metrics : Dict String R
  pub dataset_fingerprint : String

module _ {R M : Type 0} (tools : Tools R M) (cfg : TrainingConfig R) where
  unfoldable pub started_run : DatasetVersion R → Splits R → Dict String R → LoggedRun R
  unfolding git_sha
  started_run version splits metrics = record {
    params = tree_params cfg;
    as_of = or_now tools cfg.as_of;
    dataset = version;
    git_sha = or_else (git_sha cfg.git_sha tools.git) "unknown";
    split_sizes = sizes splits;
    metrics = metrics;
  }

  unfoldable pub logged : LoggedRun R → Mlflow R M → Mlflow R M
  logged run w = record w { runs = w.runs ++ run ∷ [] }

  unfoldable pub finish :
      String
      → Dict String R
      → DatasetVersion R
      → Result ℕ × Mlflow R M
      → Result (TrainingResult R) × Mlflow R M
  finish run_id metrics version (raise e, w) = (raise e, w)
  finish run_id metrics version (ok v, w) = (
    ok (record {
      run_id = run_id;
      model_version = v;
      metrics = metrics;
      dataset_fingerprint = version.fingerprint;
    }),
    w,
  )

  -- The metrics of the validation and the test part, and the time of the fit.
  unfoldable pub all_metrics : M → Splits R → Dict String R
  unfolding put evaluate_part
  all_metrics model splits = put "fit_seconds" tools.lib.fit_seconds (
      evaluate_part tools model "test" splits.test
        (evaluate_part tools model "validation" splits.validation []))

  unfoldable pub fitted :
      DatasetVersion R → Splits R → Result M → Mlflow R M → Result (TrainingResult R) × Mlflow R M
  unfolding started_run logged finish all_metrics register version_tags git_sha
  fitted version splits (raise e) w = (raise e, logged (started_run version splits []) w)
  fitted version splits (ok model) w =
      let run_id = tools.run_id (length w.runs) in
      let metrics = all_metrics model splits in
      let tags = version_tags tools (git_sha cfg.git_sha tools.git) version metrics in
      finish run_id metrics version (
        register tools cfg.candidate_alias run_id model tags
          (logged (started_run version splits metrics) w))

  unfoldable pub split_run :
      DatasetVersion R → Result (Splits R) → Mlflow R M → Result (TrainingResult R) × Mlflow R M
  unfolding fitted
  split_run version (raise e) w = (raise e, w)
  split_run version (ok splits) w =
      fitted version splits (tools.lib.fit (tree_params cfg) splits.train) w

  unfoldable pub loaded_run : Result (Frame R) → Mlflow R M → Result (TrainingResult R) × Mlflow R M
  unfolding split_run dataset_version split_frame feature_view_version
  loaded_run (raise e) w = (raise e, w)
  loaded_run (ok df) w =
      split_run
        (dataset_version tools df cfg.feature_view
          (feature_view_version tools.feast cfg.feature_view))
        (split_frame tools.num tools.splitter cfg.random_seed cfg.validation_fraction
          cfg.test_fraction df.rows)
        w

  unfoldable pub run_training :
      List CuratedHiggsLabel → Mlflow R M → Result (TrainingResult R) × Mlflow R M
  unfolding loaded_run load_training_frame
  run_training labels w = loaded_run (load_training_frame tools.sql tools.feast cfg labels) w
