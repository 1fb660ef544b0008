-- ===== src/Db/Models.antt =====
-- libs/amel_db/src/amel_db/models.py: the rows of the tables, one record for each model. A column
-- that only the server fills (`loaded_at`, `updated_at`, `promoted_at`, an autoincrement `id`) is
-- left out. R: Python's float. A time is a number of microseconds since 0001-01-01, the least
-- `datetime`.
use agentic_ml_engineering_l.Base.{ℕ, String}
use agentic_ml_engineering_l.Base.Dict.{Dict}

pub record HiggsFeatureEvent (R : Type 0) : Type 0 where
  pub event_id : String
  pub entity_id : String
  pub event_timestamp : ℕ
  pub schema_version : String
  pub source : String
  pub features : Dict String R
  pub trace_id : String
  pub kafka_partition : ℕ
  pub kafka_offset : ℕ
  pub ingested_at : ℕ

pub record HiggsLabelEvent : Type 0 where
  pub event_id : String
  pub entity_id : String
  pub target : ℕ
  pub label_timestamp : ℕ
  pub schema_version : String
  pub kafka_partition : ℕ
  pub kafka_offset : ℕ
  pub ingested_at : ℕ

pub record CuratedHiggsFeature (R : Type 0) : Type 0 where
  pub event_id : String
  pub entity_id : String
  pub event_timestamp : ℕ
  pub schema_version : String
  pub features : Dict String R
  pub source_run_id : String

pub record CuratedHiggsLabel : Type 0 where
  pub event_id : String
  pub entity_id : String
  pub target : ℕ
  pub label_timestamp : ℕ
  pub schema_version : String
  pub source_run_id : String

pub record CuratedTrainingRecord (R : Type 0) : Type 0 where
  pub entity_id : String
  pub feature_event_id : String
  pub label_event_id : String
  pub event_timestamp : ℕ
  pub features : Dict String R
  pub target : ℕ
  pub schema_version : String
  pub source_run_id : String
