-- ===== src/Pipeline/Runs.antt =====
-- The batch pipeline as a system: rows land, and runs of the DAG determine, extract, validate and
-- curate, in any interleaving and with any retries (infra/airflow/dags/higgs_pipeline.py, the tasks
-- up to `update_curated_tables_task`).
pub mod Stream
pub mod Invariant
pub mod Land
pub mod Commit
pub mod Complete
pub mod Late
use agentic_ml_engineering_l.Base.{
  ℕ, ◌*◌, ◌≤◌, ◌<◌, String, Bool, false, ◌||◌, List, [], ◌∷◌, In, All, ◌≡◌, ltb, Result,
}
use agentic_ml_engineering_l.Db.Block.{Faults}
use agentic_ml_engineering_l.Db.Models.{HiggsFeatureEvent, HiggsLabelEvent}
use agentic_ml_engineering_l.Pipeline.{Libraries, Database, FeatureRecord, LabelRecord}
use agentic_ml_engineering_l.Pipeline.Validation.{Pandera, ValidationReport}
use agentic_ml_engineering_l.Pipeline.Watermark.{epoch, get_watermark}
use agentic_ml_engineering_l.Pipeline.Extract.{
  WatermarkBounds, features_pipeline, labels_pipeline, determine_high_watermark, extract_features,
  extract_labels, validate_features, validate_labels, transform_features, transform_labels,
}
use agentic_ml_engineering_l.Pipeline.Curate.{update_curated_tables_and_advance_watermarks}
use Stream.{landed}

-- VALIDATION_MAX_INVALID_FRACTION, in millionths.
abbrev pub max_invalid_fraction : ℕ
max_invalid_fraction = 50000

-- report.invalid_fraction > MAX_INVALID_FRACTION, without the rounding of the quotient.
unfoldable pub exceeds : ℕ → ValidationReport → Bool
exceeds maximum report = ltb (maximum * report.total_rows) (report.invalid_rows * 1000000)

-- Whether `validate_task` raises.
unfoldable pub gate_fails : ℕ → ValidationReport → ValidationReport → Bool
unfolding exceeds
gate_fails maximum features_report labels_report =
    exceeds maximum features_report || exceeds maximum labels_report

-- What `extract_new_records_task` staged.
pub record Job (R : Type 0) : Type 0 where
  pub bounds : WatermarkBounds
  pub features : List (FeatureRecord R)
  pub labels : List LabelRecord

-- The database; the bounds and the frames of every run so far, which a retry may use again; and the
-- jobs that went through validation to a curation, with the clock of the validation.
pub record System (R LF LL CF CL TR W : Type 0) : Type 0 where
  pub db : Database LF LL CF CL TR W
  pub bounds : List WatermarkBounds
  pub jobs : List (Job R)
  pub validated : List (ℕ × Job R)

module _ {R LF LL CF CL TR W : Type 0} (x : Libraries R LF LL CF CL TR W)
    (features_pandera : Pandera (FeatureRecord R)) (labels_pandera : Pandera LabelRecord) where
  abbrev pub Sys : Type 0
  Sys = System R LF LL CF CL TR W

  abbrev pub features_watermark : Database LF LL CF CL TR W → ℕ
  features_watermark db = get_watermark x.watermarks db.watermarks features_pipeline

  abbrev pub labels_watermark : Database LF LL CF CL TR W → ℕ
  labels_watermark db = get_watermark x.watermarks db.watermarks labels_pipeline

  unfoldable pub extract : Database LF LL CF CL TR W → WatermarkBounds → Job R
  unfolding extract_features extract_labels
  extract db b = record {
    bounds = b;
    features = extract_features x b.features_watermark b.upper_bound db;
    labels = extract_labels x b.labels_watermark b.upper_bound db;
  }

  -- validate_task's gate for a job.
  unfoldable pub rejected : ℕ → ℕ → Job R → Bool
  unfolding gate_fails validate_features validate_labels
  rejected maximum now j =
      gate_fails maximum (validate_features features_pandera now j.features).1
        (validate_labels labels_pandera now j.labels).1

  -- validate, transform, update_curated_tables.
  unfoldable pub curate :
      Faults
      → ℕ
      → String
      → Job R
      → Database LF LL CF CL TR W
      → Result (ℕ × ℕ) × Database LF LL CF CL TR W
  unfolding validate_features validate_labels transform_features transform_labels
      update_curated_tables_and_advance_watermarks
  curate faults now run_id j =
      update_curated_tables_and_advance_watermarks x faults
        (transform_features x (validate_features features_pandera now j.features).0)
        (transform_labels x (validate_labels labels_pandera now j.labels).0) run_id
        j.bounds.upper_bound

  -- A row lands after every window that was extracted before: its ingested_at is later than their upper
  -- bounds and than the watermark.
  abbrev pub LandsAfter : ℕ → ℕ → Sys → Type 0
  LandsAfter ingested_at watermark s =
      (watermark < ingested_at) × All (λ (j : Job R). j.bounds.upper_bound < ingested_at) s.jobs

  pub data Step (maximum : ℕ) (s : Sys) : Sys → Type 0 where
    land_feature :
        (r : HiggsFeatureEvent R)
        → LandsAfter r.ingested_at (features_watermark s.db) s
        → Step maximum s (record s {
          db = record s.db {
            landing_features =
                landed x.landing_features (λ e. e.ingested_at) r s.db.landing_features;
          };
        })
    land_label :
        (r : HiggsLabelEvent)
        → LandsAfter r.ingested_at (labels_watermark s.db) s
        → Step maximum s (record s {
          db = record s.db {
            landing_labels = landed x.landing_labels (λ e. e.ingested_at) r s.db.landing_labels;
          };
        })
    determine :
        (upper_bound : ℕ)
        → epoch ≤ upper_bound
        → Step maximum s
            (record s { bounds = determine_high_watermark x upper_bound s.db ∷ s.bounds })
    stage :
        (b : WatermarkBounds)
        → In b s.bounds
        → Step maximum s (record s { jobs = extract s.db b ∷ s.jobs })
    commit :
        (faults : Faults) (now : ℕ) (run_id : String) (j : Job R)
        → In j s.jobs
        → rejected maximum now j ≡ false
        → Step maximum s (record s {
          db = (curate faults now run_id j s.db).1;
          validated = (now, j) ∷ s.validated;
        })

  pub data Reach (maximum : ℕ) (s : Sys) : Sys → Type 0 where
    here : Reach maximum s s
    next : {t u : Sys} → Reach maximum s t → Step maximum t u → Reach maximum s u
