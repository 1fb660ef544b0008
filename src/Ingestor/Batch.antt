-- ===== src/Ingestor/Batch.antt =====
-- consumer.py, `_process_batch_inner`, with dlq.py's `send`: one batch, from the messages to the
-- offset commit.
pub mod Handled
pub mod Grows
pub mod Collect
pub mod Commit
pub mod Promise
pub mod Poison
pub mod Reference
pub mod Redelivery
use agentic_ml_engineering_l.Base.{
  ℕ, ◌+◌, max, String, Option, none, some, List, [], ◌∷◌, ◌++◌, map, ◌==◌, if◌then◌else◌, Exc,
  kafka_exception, value_error, key_error, runtime_error, unicode_decode_error, buffer_error,
  database_error, other_exception, Result, ok, raise,
}
use agentic_ml_engineering_l.Base.Dict.{Dict, get, put}
use agentic_ml_engineering_l.Base.Equality.{string_eq, nat_eq, pair_eq}
use agentic_ml_engineering_l.Ingestor.{
  Settings, Message, Row, Event, Envelope, External, World, Env, Key, Counters,
}
use agentic_ml_engineering_l.Ingestor.Validate.{
  Validated, parsed, rejected, validate, dlq_topic_for,
}
use agentic_ml_engineering_l.Ingestor.Write.{Written, write_with_retry}

-- The variables of the loop over the batch, with the world that it writes to.
pub record Progress (R D T : Type 0) : Type 0 where
  pub features_rows : List (Row R D)
  pub labels_rows : List (Row R D)
  pub max_offset : Dict Key ℕ
  pub world : World T

abbrev pub row : {R D : Type 0} → Event R D → ℕ → ℕ → Row R D
row event partition offset = record {
  event = event;
  kafka_partition = partition;
  kafka_offset = offset;
}

-- `raw or b""`
abbrev pub raw_bytes : {B R D T : Type 0} → External B R D T → Option B → B
raw_bytes x none = x.empty
raw_bytes x (some raw) = raw

-- max(max_offset.get(key, -1), offset)
abbrev pub max_seen : Option ℕ → ℕ → ℕ
max_seen none offset = offset
max_seen (some old) offset = max old offset

module _ {R D T : Type 0} where
  unfoldable pub track : Key → ℕ → Progress R D T → Progress R D T
  unfolding get put
  track key offset p = record p {
    max_offset = put key (max_seen (get key p.max_offset) offset) p.max_offset;
  }

  abbrev pub after_message :
      Result (Unit {0}) × Progress R D T
      → (Progress R D T → Result (Unit {0}) × Progress R D T)
      → Result (Unit {0}) × Progress R D T
  after_message (raise e, q) continue = (raise e, q)
  after_message (ok _, q) continue = continue q

unfoldable pub next_offsets : Dict Key ℕ → List (Key × ℕ)
next_offsets [] = []
next_offsets ((key, offset) ∷ d) = (key, offset + 1) ∷ next_offsets d

module _ {T : Type 0} where
  -- A KafkaException is recorded; any other exception goes on.
  unfoldable pub commit_offsets :
      List (Key × ℕ) → Option Exc → World T → Result (Unit {0}) × World T
  commit_offsets offsets none w = (
    ok tt,
    record w {
      commits = offsets ∷ w.commits;
      last_commit_error = none;
      counters = record w.counters { offset_commits = w.counters.offset_commits + 1 };
    },
  )
  commit_offsets offsets (some (kafka_exception text)) w = (
    ok tt,
    record w {
      commit_failures = w.commit_failures + 1;
      last_commit_error = some text;
      counters = record w.counters {
        offset_commit_failures = w.counters.offset_commit_failures + 1;
      };
    },
  )
  commit_offsets offsets (some e) w = (raise e, w)

module _ {B R D T : Type 0} (x : External B R D T) (s : Settings) (env : Env) where
  -- `DlqProducer.send`, and the count of the dead letter. `produce` only puts the letter in the
  -- producer's queue; the report of its delivery comes to `_on_delivery` at a later poll or flush. That
  -- only logs an error, so that nothing else depends on it.
  unfoldable pub send : Envelope → Progress R D T → Result (Unit {0}) × Progress R D T
  send letter p = elim (env.produce_error p.world.dlq letter) [
    | some e ↦ (raise e, p)
    | none ↦ (
      ok tt,
      record p {
        world = record p.world {
          dlq = p.world.dlq ++ letter ∷ [];
          reports = p.world.reports ++ (letter, env.delivery_error p.world.dlq letter) ∷ [];
          counters = record p.world.counters { dead_lettered = p.world.counters.dead_lettered + 1 };
        };
      },
    )
  ]

  abbrev pub envelope : String → String → ℕ → ℕ → Option B → String → Envelope
  envelope dlq_topic topic partition offset raw reason = record {
    dlq_topic = dlq_topic;
    original_topic = topic;
    original_partition = partition;
    original_offset = offset;
    reason = reason;
    raw_value_base64 = x.b64encode (raw_bytes x raw);
    failed_at = env.now;
  }

  dead_letter :
      String
      → ℕ
      → ℕ
      → Option B
      → String
      → Result String
      → Progress R D T
      → Result (Unit {0}) × Progress R D T
  unfolding send
  dead_letter topic partition offset raw reason (raise e) p = (raise e, p)
  dead_letter topic partition offset raw reason (ok dlq_topic) p =
      send (envelope dlq_topic topic partition offset raw reason) p

  unfoldable pub add_row : String → Row R D → Progress R D T → Progress R D T
  add_row topic r p =
      if topic == s.features_topic
      then record p { features_rows = p.features_rows ++ r ∷ [] }
      else record p { labels_rows = p.labels_rows ++ r ∷ [] }

  pub dispatch :
      String
      → ℕ
      → ℕ
      → Option B
      → Result (Validated R D)
      → Progress R D T
      → Result (Unit {0}) × Progress R D T
  unfolding dead_letter add_row dlq_topic_for
  dispatch topic partition offset raw (raise e) p = (raise e, p)
  dispatch topic partition offset raw (ok (rejected reason)) p =
      dead_letter topic partition offset raw reason (dlq_topic_for s topic) p
  dispatch topic partition offset raw (ok (parsed event)) p =
      (ok tt, add_row topic (row event partition offset) p)

  collect_fields :
      Option String
      → Option ℕ
      → Option ℕ
      → Option B
      → Progress R D T
      → Result (Unit {0}) × Progress R D T
  unfolding dispatch track validate
  collect_fields (some topic) (some partition) (some offset) raw p =
      dispatch topic partition offset raw (validate x s topic raw)
        (track (topic, partition) offset p)
  collect_fields _ _ _ raw p = (ok tt, p)

  -- The body of `for msg in batch`.
  unfoldable pub collect_message : Message B → Progress R D T → Result (Unit {0}) × Progress R D T
  unfolding collect_fields
  collect_message m p = collect_fields m.topic m.partition m.offset m.value p

  unfoldable pub collect : List (Message B) → Progress R D T → Result (Unit {0}) × Progress R D T
  unfolding collect_message
  collect [] p = (ok tt, p)
  collect (m ∷ ms) p = after_message (collect_message m p) (λ q. collect ms q)

  after_written : Dict Key ℕ → Option (Written T) → Option (Result (Unit {0}) × World T)
  unfolding commit_offsets next_offsets
  after_written max_offset none = none
  after_written max_offset (some r) = elim r.result [
    | raise e ↦ some (raise e, r.world)
    | ok _ ↦ some (commit_offsets (next_offsets max_offset) env.commit_error r.world)
  ]

  after_collect : Result (Unit {0}) × Progress R D T → Option (Result (Unit {0}) × World T)
  unfolding after_written write_with_retry
  after_collect (raise e, p) = some (raise e, p.world)
  after_collect (ok _, p) =
      after_written p.max_offset (write_with_retry x s env p.features_rows p.labels_rows p.world)

  -- `none` would be a write loop that does not end.
  unfoldable pub process_batch : List (Message B) → World T → Option (Result (Unit {0}) × World T)
  unfolding after_collect collect
  process_batch batch w =
      after_collect (
        collect batch (record { features_rows = []; labels_rows = []; max_offset = []; world = w }))
