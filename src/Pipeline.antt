-- ===== src/Pipeline.antt =====
-- infra/airflow/dags/higgs_pipeline_tasks.py and libs/amel_lake: the batch pipeline from the landing
-- tables to the curated ones. This file: the database that the tasks work on.
pub mod Watermark
pub mod Chunks
pub mod Validation
pub mod Extract
pub mod Curate
pub mod Runs
pub mod RunRecord
pub mod Windows
pub mod Keys
pub mod Gold
pub mod FeatureStore
use agentic_ml_engineering_l.Base.{ℕ, String, List, In, ◌≡◌, ◌↔◌}
use agentic_ml_engineering_l.Base.Dict.{Dict}
use agentic_ml_engineering_l.Db.Table.{Table}
use agentic_ml_engineering_l.Db.Models.{
  HiggsFeatureEvent, HiggsLabelEvent, CuratedHiggsFeature, CuratedHiggsLabel, CuratedTrainingRecord,
}
use Watermark.{Watermarks}

-- A row of the frame that `extract_features` returns; `features` holds the 28 columns.
pub record FeatureRecord (R : Type 0) : Type 0 where
  pub event_id : String
  pub entity_id : String
  pub event_timestamp : ℕ
  pub schema_version : String
  pub features : Dict String R

pub record LabelRecord : Type 0 where
  pub event_id : String
  pub entity_id : String
  pub target : ℕ
  pub label_timestamp : ℕ
  pub schema_version : String

-- What the tasks use of PostgreSQL and pandas: a table for each model, the value of a missing column
-- of a frame, and `sort_values("event_id")`, which keeps the rows.
pub record Libraries (R LF LL CF CL TR W : Type 0) : Type 0 where
  pub landing_features : Table LF (HiggsFeatureEvent R)
  pub landing_labels : Table LL HiggsLabelEvent
  pub curated_features : Table CF (CuratedHiggsFeature R)
  pub curated_labels : Table CL CuratedHiggsLabel
  pub training_records : Table TR (CuratedTrainingRecord R)
  pub watermarks : Watermarks W
  -- index_elements=["event_id"], and the primary key of training_records
  pub landing_features_key : (r : HiggsFeatureEvent R) → landing_features.upsert.key r ≡ r.event_id
  pub landing_labels_key : (r : HiggsLabelEvent) → landing_labels.upsert.key r ≡ r.event_id
  pub curated_features_key :
      (r : CuratedHiggsFeature R) → curated_features.upsert.key r ≡ r.event_id
  pub curated_labels_key : (r : CuratedHiggsLabel) → curated_labels.upsert.key r ≡ r.event_id
  pub training_records_key :
      (r : CuratedTrainingRecord R) → training_records.upsert.key r ≡ r.entity_id
  pub nan : R
  pub sort_features : List (FeatureRecord R) → List (FeatureRecord R)
  pub sort_labels : List LabelRecord → List LabelRecord
  pub In-sort_features :
      (r : FeatureRecord R) (df : List (FeatureRecord R)) → In r (sort_features df) ↔ In r df
  pub In-sort_labels : (r : LabelRecord) (df : List LabelRecord) → In r (sort_labels df) ↔ In r df

pub record Database (LF LL CF CL TR W : Type 0) : Type 0 where
  pub landing_features : LF
  pub landing_labels : LL
  pub curated_features : CF
  pub curated_labels : CL
  pub training_records : TR
  pub watermarks : W
