-- ===== src/Training/Steps/Guarded.antt =====
-- steps.py: the registry changes only for a dataset that passes its checks.
use agentic_ml_engineering_l.Base.{
  List, ◌≡◌, refl, ◌⊎◌, inl, inr, Exc, Result-cases, ok, raise, value_error,
}
use agentic_ml_engineering_l.Base.Dict.{get, put}
use agentic_ml_engineering_l.Base.Equality.{string_eq}
use agentic_ml_engineering_l.Schemas.Features.{higgs_feature_names}
use agentic_ml_engineering_l.Db.Models.{CuratedHiggsLabel}
use agentic_ml_engineering_l.Training.{Frame, TrainingConfig}
use agentic_ml_engineering_l.Training.Dataset.{load_training_frame}
use agentic_ml_engineering_l.Training.Checks.{Labels, validate_training_dataset}
use agentic_ml_engineering_l.Training.Checks.Valid.{
  IsTrainable, validate_training_dataset-IsTrainable,
}
use agentic_ml_engineering_l.Training.Run.{Tools, Mlflow}
use agentic_ml_engineering_l.Training.Steps.{
  min_rows, framed, load_training_dataset, validated, validate_step, prepared, register_prepared,
  run_all,
}

module _ {R M : Type 0} (tools : Tools R M) (labels : Labels R) (most : R)
    (env cfg : TrainingConfig R) (rows : List CuratedHiggsLabel) (w : Mlflow R M) where
  -- The settings of load_training_dataset.
  abbrev pub loads : TrainingConfig R
  loads = record env {
    max_rows = cfg.max_rows;
    as_of = cfg.as_of;
    feature_repo_path = cfg.feature_repo_path;
  }

  run_all-unloaded :
      (e : Exc)
      → load_training_frame tools.sql tools.feast loads rows ≡ raise e
      → (run_all tools labels most env cfg rows w).1 ≡ w
  unfolding run_all prepared load_training_dataset register_prepared
  run_all-unloaded e h = rw h refl

  run_all-invalid :
      (df : Frame R)
      → load_training_frame tools.sql tools.feast loads rows ≡ ok df
      → (validate_training_dataset tools.num labels min_rows most df).0
        ≡ raise (value_error "training dataset failed validation")
      → (run_all tools labels most env cfg rows w).1 ≡ w
  unfolding run_all prepared load_training_dataset framed validate_step validated register_prepared
      get put
  run_all-invalid df h v = rw (h, v) refl

  guarded :
      (df : Frame R)
      → load_training_frame tools.sql tools.feast loads rows ≡ ok df
      → ((run_all tools labels most env cfg rows w).1 ≡ w)
        ⊎ IsTrainable tools.num labels min_rows most higgs_feature_names df
  guarded df h =
      let (i, o) = validate_training_dataset-IsTrainable tools.num labels min_rows most df in
      elim o [ inl v ↦ inr (i.0 v) | inr v ↦ inl (run_all-invalid df h v) ]

  -- Whatever the steps raise, run_all leaves the tracking server and the registry as they were, or the
  -- frame that load_training_dataset loads for the configuration passes the checks: it has 1000 rows
  -- or more, the 28 columns without a NaN, labels that are 0 or 1, and no class with too great a share.
  pub run_all-IsGuarded :
      ((run_all tools labels most env cfg rows w).1 ≡ w)
      ⊎ ((df : Frame R) × (load_training_frame tools.sql tools.feast loads rows ≡ ok df)
          × IsTrainable tools.num labels min_rows most higgs_feature_names df)
  run_all-IsGuarded = elim (Result-cases (load_training_frame tools.sql tools.feast loads rows)) [
    | inl (e, h) ↦ inl (run_all-unloaded e h)
    | inr (df, h) ↦ elim (guarded df h) [ inl u ↦ inl u | inr t ↦ inr (df, h, t) ]
  ]
