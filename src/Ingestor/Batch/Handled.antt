-- ===== src/Ingestor/Batch/Handled.antt =====
-- consumer.py, `_process_batch_inner`: what has become of each message when a batch returns.
use agentic_ml_engineering_l.Base.{
  ℕ, String, Bool, true, false, Option, none, some, List, ◌==◌, ◌≡◌, if◌then◌else◌, Result, ok,
  raise, In,
}
use agentic_ml_engineering_l.Base.Equality.{string_eq}
use agentic_ml_engineering_l.Ingestor.{Settings, Message, Row, Envelope, External, World}
use agentic_ml_engineering_l.Ingestor.Validate.{Validated, parsed, rejected, validate}
use agentic_ml_engineering_l.Db.Upsert.{Holds}
use agentic_ml_engineering_l.Ingestor.Batch.{Progress, raw_bytes, row}

module _ {B R D T : Type 0} (x : External B R D T) where
  -- A dead letter that carries the message: its position, and its bytes in base64.
  pub record Carries (t : String) (k o : ℕ) (raw : Option B) (letter : Envelope) : Type 0 where
    pub topic : letter.original_topic ≡ t
    pub partition : letter.original_partition ≡ k
    pub offset : letter.original_offset ≡ o
    pub bytes : letter.raw_value_base64 ≡ x.b64encode (raw_bytes x raw)

  module _ (s : Settings) (F L : Row R D → Type 0) (letters : List Envelope) where
    -- A valid event is a row of its topic's table, a rejected message is a dead letter.
    abbrev pub TakenAs : String → ℕ → ℕ → Option B → Result (Validated R D) → Type 0
    TakenAs t k o raw (raise e) = ⊥
    TakenAs t k o raw (ok (parsed event)) =
        if t == s.features_topic then F (row event k o) else L (row event k o)
    TakenAs t k o raw (ok (rejected reason)) =
        (letter : Envelope) × In letter letters × Carries t k o raw letter

    abbrev pub TakenFields : Option String → Option ℕ → Option ℕ → Option B → Type 0
    TakenFields (some t) (some k) (some o) raw = TakenAs t k o raw (validate x s t raw)
    TakenFields _ _ _ raw = Unit

    -- A message without a topic, a partition or an offset is skipped.
    abbrev pub Taken : Message B → Type 0
    Taken m = TakenFields m.topic m.partition m.offset m.value

  module _ (s : Settings) where
    -- In the rows and the dead letters of the loop.
    abbrev pub Staged : Progress R D T → Message B → Type 0
    Staged p = Taken s (λ r. In r p.features_rows) (λ r. In r p.labels_rows) p.world.dlq

    -- In the database, or among the dead letters.
    abbrev pub Handled : World T → Message B → Type 0
    Handled w = Taken s (Holds x.landing w.tables.features) (Holds x.landing w.tables.labels) w.dlq

module _ {B R D T : Type 0} (x : External B R D T) (s : Settings) (F L F' L' : Row R D → Type 0)
    (d d' : List Envelope) (f : (r : Row R D) → F r → F' r) (l : (r : Row R D) → L r → L' r)
    (g : (letter : Envelope) → In letter d → In letter d') where
  TakenAs-mono :
      (t : String) (k o : ℕ) (raw : Option B) (v : Result (Validated R D))
      → TakenAs x s F L d t k o raw v
      → TakenAs x s F' L' d' t k o raw v
  TakenAs-mono t k o raw (raise e) h = h
  TakenAs-mono t k o raw (ok (parsed event)) h = by_topic (t == s.features_topic) h
    where
      by_topic :
          (b : Bool)
          → (if b then F (row event k o) else L (row event k o))
          → (if b then F' (row event k o) else L' (row event k o))
      by_topic true h' = f _ h'
      by_topic false h' = l _ h'
  TakenAs-mono t k o raw (ok (rejected reason)) (letter, i, c) = (letter, g letter i, c)

  TakenFields-mono :
      (t : Option String) (k o : Option ℕ) (raw : Option B)
      → TakenFields x s F L d t k o raw
      → TakenFields x s F' L' d' t k o raw
  TakenFields-mono (some t) (some k) (some o) raw h = TakenAs-mono t k o raw (validate x s t raw) h
  TakenFields-mono none k o raw h = tt
  TakenFields-mono (some t) none o raw h = tt
  TakenFields-mono (some t) (some k) none raw h = tt

  pub Taken-mono : (m : Message B) → Taken x s F L d m → Taken x s F' L' d' m
  Taken-mono m h = TakenFields-mono m.topic m.partition m.offset m.value h
