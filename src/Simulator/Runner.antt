-- ===== src/Simulator/Runner.antt =====
-- services/source_simulator/src/source_simulator/simulator.py and producer.py: the events of one row,
-- their hand-over to Kafka, and the loop. R: Python's float; D: its datetime.
pub mod Events
pub mod Loop
pub mod Probes
pub mod Rate
pub mod Faithful
pub mod Unlabelled
use agentic_ml_engineering_l.Base.{
  ℕ, suc, ◌+◌, ◌≤◌, String, Bool, true, false, Option, none, some, List, [], ◌∷◌, ◌++◌, ◌==◌,
  if◌then◌else◌, Exc, Result, ok, raise, value_error, buffer_error, leb,
}
use agentic_ml_engineering_l.Base.Dict.{Dict}
use agentic_ml_engineering_l.Base.Int.{ℤ, pos, negsuc}
use agentic_ml_engineering_l.Base.Exception.{text}
use agentic_ml_engineering_l.Schemas.Values.{Json, Pydantic}
use agentic_ml_engineering_l.Schemas.Features.{features_match_higgs_schema}
use agentic_ml_engineering_l.Schemas.{
  FeatureEvent, LabelEvent, feature_schema_version, label_schema_version, zero_or_one, dump_feature,
  dump_label,
}
use agentic_ml_engineering_l.Simulator.Malformed.{
  FeatureStrategy, LabelStrategy, DroppableFeature, DroppableLabel, BadTarget,
  corrupt_feature_payload, corrupt_label_payload,
}
use agentic_ml_engineering_l.Simulator.DelayQueue.{DelayedDispatcher, schedule}

pub data EventType : Type 0 where
  feature label : EventType

-- A message in Kafka; its value is json.dumps of the payload. `malformed` and `duplicate` are what the
-- simulator knows of it.
pub record Sent (R : Type 0) : Type 0 where
  pub topic : String
  pub key : String
  pub payload : Dict String (Json R)
  pub event_type : EventType
  pub malformed : Bool
  pub duplicate : Bool

pub record Counters : Type 0 where
  pub rows_read : ℕ
  pub features_published : ℕ
  pub labels_published : ℕ
  pub duplicates_published : ℕ
  pub malformed_published : ℕ
  pub events_dropped : ℕ

pub record Settings (R : Type 0) : Type 0 where
  pub features_topic : String
  pub labels_topic : String
  pub service_name : String
  pub invalid_event_rate : R
  pub duplicate_rate : R
  pub label_delay : ℕ

-- The closure that _schedule_label hands to the dispatcher.
pub record LabelJob (R : Type 0) : Type 0 where
  pub entity_id : String
  pub payload : Dict String (Json R)
  pub malformed : Bool
  pub duplicate : Bool

-- What the probes report; a time is a number of microseconds.
pub record ProducerHealth : Type 0 where
  pub delivery_failures : ℕ
  pub last_delivery_error : Option String
  pub last_delivery_error_at : Option ℕ
  pub last_delivery_ok_at : Option ℕ
  pub fatal_error : Option String
  pub loop_error : Option String

-- `calls` counts the calls of Producer.produce.
pub record World (R : Type 0) : Type 0 where
  pub log : List (Sent R)
  pub calls : ℕ
  pub counters : Counters
  pub health : ProducerHealth
  pub dispatcher : DelayedDispatcher (LabelJob R)

abbrev pub plus_if : Bool → ℕ → ℕ
plus_if b n = if b then suc n else n

abbrev pub is_feature : EventType → Bool
is_feature feature = true
is_feature label = false

abbrev pub is_label : EventType → Bool
is_label feature = false
is_label label = true

abbrev pub counted : {R : Type 0} → Sent R → Counters → Counters
counted m c = record {
  rows_read = c.rows_read;
  features_published = plus_if (is_feature m.event_type) c.features_published;
  labels_published = plus_if (is_label m.event_type) c.labels_published;
  malformed_published = plus_if m.malformed c.malformed_published;
  duplicates_published = plus_if m.duplicate c.duplicates_published;
  events_dropped = c.events_dropped;
}

-- What produce raises at its n-th call, and whether an exception is a KafkaException whose error is
-- fatal.
pub record Kafka : Type 0 where
  pub produce_error : ℕ → Option Exc
  pub is_fatal : Exc → Bool

module _ {R : Type 0} (kafka : Kafka) where
  produced : Option Exc → Sent R → World R → Result (Unit {0}) × World R
  produced none m w = (ok tt, record w { log = w.log ++ m ∷ []; calls = suc w.calls })
  produced (some e) m w = (raise e, record w { calls = suc w.calls })

  unfoldable pub produce : Sent R → World R → Result (Unit {0}) × World R
  unfolding produced
  produce m w = produced (kafka.produce_error w.calls) m w

  -- `except BufferError`: flush, and once more.
  after_produce : Sent R → Result (Unit {0}) × World R → Result (Unit {0}) × World R
  unfolding produce
  after_produce m (raise (buffer_error t), w) = produce m w
  after_produce m r = r

  -- KafkaEventProducer.publish
  unfoldable pub publish : Sent R → World R → Result (Unit {0}) × World R
  unfolding after_produce produce
  publish m w = after_produce m (produce m w)

  after_publish : Sent R → Result (Unit {0}) × World R → Result (Unit {0}) × World R
  after_publish m (raise e, w) = (raise e, w)
  after_publish m (ok _, w) = (ok tt, record w { counters = counted m w.counters })

  unfoldable pub send : Sent R → World R → Result (Unit {0}) × World R
  unfolding after_publish publish
  send m w = after_publish m (publish m w)

  again : Bool → Sent R → Result (Unit {0}) × World R → Result (Unit {0}) × World R
  unfolding send
  again duplicate m (raise e, w) = (raise e, w)
  again duplicate m (ok _, w) =
      if duplicate then send (record m { duplicate = true }) w else (ok tt, w)

  -- The message, and its duplicate where the draw says so.
  unfoldable pub send_with_duplicate : Bool → Sent R → World R → Result (Unit {0}) × World R
  unfolding again send
  send_with_duplicate duplicate m w = again duplicate m (send m w)

  -- _on_publish_error; True is fatal.
  unfoldable pub on_publish_error : Exc → World R → Bool × World R
  on_publish_error e w =
      let fatal = kafka.is_fatal e in
      (
        fatal,
        record w {
          counters = record w.counters { events_dropped = suc w.counters.events_dropped };
          health = if fatal then record w.health { fatal_error = some (text e) } else w.health;
        },
      )

-- What the generator draws for one event: rng.random() twice, and the choices of the corruption.
pub record FeatureDraw (R : Type 0) : Type 0 where
  pub invalid : R
  pub duplicate : R
  pub strategy : FeatureStrategy
  pub field : DroppableFeature

pub record LabelDraw (R : Type 0) : Type 0 where
  pub invalid : R
  pub duplicate : R
  pub strategy : LabelStrategy
  pub field : DroppableLabel
  pub bad : BadTarget

-- The order of floats, and 1.0.
pub record Float (R : Type 0) : Type 0 where
  pub lt : R → R → Bool
  pub one : R
