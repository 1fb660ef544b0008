-- ===== src/Training/Steps/Same.antt =====
-- steps.py against train.py: "the two paths produce the same fingerprint and metrics for the same config".
use agentic_ml_engineering_l.Base.{ℕ, suc, List, [], ◌∷◌, ◌++◌, length, ◌≡◌, Result, ok, raise}
use agentic_ml_engineering_l.Base.Dict.{put}
use agentic_ml_engineering_l.Base.Equality.{string_eq}
use agentic_ml_engineering_l.Db.Models.{CuratedHiggsLabel}
use agentic_ml_engineering_l.Training.{Frame, TrainingConfig, tree_params}
use agentic_ml_engineering_l.Training.Dataset.{load_training_frame}
use agentic_ml_engineering_l.Training.Split.{Splits, split_frame}
use agentic_ml_engineering_l.Training.Checks.{Labels, Report, validate_training_dataset}
use agentic_ml_engineering_l.Training.Run.{Tools, Mlflow, TrainingResult, model_version_for_run}
use agentic_ml_engineering_l.Training.Steps.{min_rows}

module _ {R M : Type 0} (tools : Tools R M) (labels : Labels R) (most : R)
    (env cfg : TrainingConfig R) where
  -- Two outcomes: the same exception, or the same run, version, fingerprint and metrics but for the
  -- time of the fit, which only run_training reports; and the same versions and aliases.
  abbrev pub Agree :
      Result (TrainingResult R) × Mlflow R M → Result (TrainingResult R) × Mlflow R M → Type 0
  Agree (raise e, w) (raise f, u) = (e ≡ f) × (w.versions ≡ u.versions) × (w.aliases ≡ u.aliases)
  Agree (ok a, w) (ok b, u) =
      (a.run_id ≡ b.run_id)
      × (a.model_version ≡ b.model_version)
      × (a.dataset_fingerprint ≡ b.dataset_fingerprint)
      × (a.metrics ≡ put "fit_seconds" tools.lib.fit_seconds b.metrics)
      × (w.versions ≡ u.versions)
      × (w.aliases ≡ u.aliases)
  Agree (raise e, w) (ok b, u) = ⊥
  Agree (ok a, w) (raise f, u) = ⊥

  module _ (same_view : env.feature_view ≡ cfg.feature_view) (rows : List CuratedHiggsLabel)
      (w : Mlflow R M) where
    module _ (df : Frame R) (report : Report R)
        (load : load_training_frame tools.sql tools.feast cfg rows ≡ ok df)
        (valid : (validate_training_dataset tools.num labels min_rows most df).0 ≡ ok report) where
      module _ (splits : Splits R)
          (split : split_frame tools.num tools.splitter cfg.random_seed cfg.validation_fraction
              cfg.test_fraction df.rows
            ≡ ok splits) where
        module _ (model : M) (fit : tools.lib.fit (tree_params cfg) splits.train ≡ ok model) where
          -- The version that MLflow gives to the run.
          abbrev found : Result ℕ
          found = model_version_for_run tools (tools.run_id (length w.runs)) (
              w.versions
              ++ record {
                version = suc (length w.versions);
                run_id = tools.run_id (length w.runs);
                model = model;
              }
                ∷ [])
