-- ===== src/Ingestor.antt =====
-- services/stream_ingestor: the state of the consume loop, and what it meets outside.
pub mod Validate
pub mod Write
pub mod Batch
pub mod Poll
pub mod Loop
pub mod Probes
use agentic_ml_engineering_l.Base.{ℕ, String, List, Option, none, some, Exc}
use agentic_ml_engineering_l.Schemas.Values.{Json, Pydantic}
use agentic_ml_engineering_l.Schemas.{FeatureEvent, LabelEvent}
use agentic_ml_engineering_l.Db.Upsert.{Upsert}

-- config.py, the settings that the loop reads; times in milliseconds.
pub record Settings : Type 0 where
  pub features_topic : String
  pub labels_topic : String
  pub features_dlq_topic : String
  pub labels_dlq_topic : String
  pub batch_size : ℕ
  pub batch_timeout : ℕ
  pub max_retries : ℕ
  pub stall_timeout : ℕ
  pub retry_backoff_base : ℕ

-- A Kafka message with no error; B: its bytes. Offsets of a consumed message are not negative.
pub record Message (B : Type 0) : Type 0 where
  pub topic : Option String
  pub partition : Option ℕ
  pub offset : Option ℕ
  pub value : Option B

pub data Event (R D : Type 0) : Type 0 where
  feature : FeatureEvent R D → Event R D
  label : LabelEvent D → Event R D

abbrev pub event_id : {R D : Type 0} → Event R D → String
event_id (feature e) = e.event_id
event_id (label e) = e.event_id

-- `parsed.model_dump()` with the message's position.
pub record Row (R D : Type 0) : Type 0 where
  pub event : Event R D
  pub kafka_partition : ℕ
  pub kafka_offset : ℕ

-- dlq.py, the envelope of a dead letter and the topic that it is produced to.
pub record Envelope : Type 0 where
  pub dlq_topic : String
  pub original_topic : String
  pub original_partition : ℕ
  pub original_offset : ℕ
  pub reason : String
  pub raw_value_base64 : String
  pub failed_at : ℕ

-- What `json.loads` does: it returns, raises JSONDecodeError, or raises another exception.
pub data Loaded (R : Type 0) : Type 0 where
  loaded : Json R → Loaded R
  decode_error : String → Loaded R
  failed : Exc → Loaded R

-- The libraries: T is a table of the landing schema.
pub record External (B R D T : Type 0) : Type 0 where
  pub py : Pydantic R D
  pub json_loads : B → Loaded R
  pub b64encode : B → String
  pub empty : B
  pub landing : Upsert T (Row R D)

pub record Tables (T : Type 0) : Type 0 where
  pub features : T
  pub labels : T

-- metrics.py
pub record Counters : Type 0 where
  pub persisted : ℕ
  pub duplicate_skipped : ℕ
  pub dead_lettered : ℕ
  pub db_write_failures : ℕ
  pub offset_commits : ℕ
  pub offset_commit_failures : ℕ

-- A topic and a partition.
abbrev pub Key : Type 0
Key = String × ℕ

-- The database; the dead letters handed to the Kafka producer; for each of them what the report of its
-- delivery says, an error also where none comes; the offset commits that the broker accepted (newest
-- first); and the fields of StreamIngestor that a batch changes.
pub record World (T : Type 0) : Type 0 where
  pub tables : Tables T
  pub counters : Counters
  pub dlq : List Envelope
  pub reports : List (Envelope × Option String)
  pub commits : List (List (Key × ℕ))
  pub commit_failures : ℕ
  pub last_commit_error : Option String

-- What goes wrong in one write transaction: in each statement, and in the commit.
pub record WriteErrors : Type 0 where
  pub features_insert : Option Exc
  pub labels_insert : Option Exc
  pub commit : Option Exc

-- What the outside does while one batch is processed: to each produce call, after the dead letters
-- before it; to the delivery of each dead letter produced; to each write attempt; to the offset commit.
pub record Env : Type 0 where
  pub produce_error : List Envelope → Envelope → Option Exc
  pub delivery_error : List Envelope → Envelope → Option String
  pub write_errors : ℕ → WriteErrors
  pub commit_error : Option Exc
  pub now : ℕ
