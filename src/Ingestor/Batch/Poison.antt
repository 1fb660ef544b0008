-- ===== src/Ingestor/Batch/Poison.antt =====
-- consumer.py, `_validate` catches JSONDecodeError only: a message at which `json.loads` raises
-- anything else stops the batch.
use agentic_ml_engineering_l.Base.{
  ℕ, String, Option, none, some, List, ◌≡◌, refl, subst, Exc, Result, raise, In, In-All, All,
}
use agentic_ml_engineering_l.Ingestor.{
  Settings, Message, External, World, Env, failed, Row, Envelope,
}
use agentic_ml_engineering_l.Ingestor.Validate.{validate}
use agentic_ml_engineering_l.Ingestor.Batch.{Progress, process_batch}
use agentic_ml_engineering_l.Ingestor.Batch.Handled.{TakenFields, TakenAs}
use agentic_ml_engineering_l.Ingestor.Batch.Grows.{Grows}
use agentic_ml_engineering_l.Ingestor.Batch.Collect.{Passed, collect-Grows}
use agentic_ml_engineering_l.Ingestor.Batch.Commit.{
  Course, unread, unwritten, written, start, process_batch-Course,
}
use agentic_ml_engineering_l.Ingestor.Batch.Promise.{All-Passed}

module _ {B R D T : Type 0} (x : External B R D T) where
  -- A message with its metadata, whose bytes make `json.loads` raise another exception.
  pub record Poisons (m : Message B) : Type 0 where
    pub topic : String
    pub partition : ℕ
    pub offset : ℕ
    pub raw : B
    pub exc : Exc
    pub has_topic : m.topic ≡ some topic
    pub has_partition : m.partition ≡ some partition
    pub has_offset : m.offset ≡ some offset
    pub has_value : m.value ≡ some raw
    pub raises : x.json_loads raw ≡ failed exc

module _ {B R D T : Type 0} (x : External B R D T) (s : Settings) (env : Env) where
  validate-failed :
      (t : String) (v : Option B) (raw : B) {exc : Exc}
      → v ≡ some raw
      → x.json_loads raw ≡ failed exc
      → validate x s t v ≡ raise exc
  unfolding validate
  validate-failed t none raw e h = cc
  validate-failed t (some r) raw e h = let q : r ≡ raw = cc in rw (q, h)

  -- No row and no dead letter is made of such a message.
  not-TakenFields :
      (F L : Row R D → Type 0) (letters : List Envelope) (t : Option String) (k o : Option ℕ)
      (v : Option B) (t' : String) (k' o' : ℕ) (raw : B) (exc : Exc)
      → t ≡ some t'
      → k ≡ some k'
      → o ≡ some o'
      → v ≡ some raw
      → x.json_loads raw ≡ failed exc
      → ¬ TakenFields x s F L letters t k o v
  not-TakenFields F L letters none k o v t' k' o' raw exc et ek eo ev h taken = cc
  not-TakenFields F L letters (some t) none o v t' k' o' raw exc et ek eo ev h taken = cc
  not-TakenFields F L letters (some t) (some k) none v t' k' o' raw exc et ek eo ev h taken = cc
  not-TakenFields F L letters (some t) (some k) (some o) v t' k' o' raw exc et ek eo ev h taken =
      subst (TakenAs x s F L letters t k o v) (validate-failed t v raw ev h) taken

  module _ (batch : List (Message B)) (m : Message B) (i : In m batch) (bad : Poisons x m) where
    not-Passed : (p : Progress R D T) → ¬ All (Passed x s env p) batch
    not-Passed p all =
        not-TakenFields (λ r. In r p.features_rows) (λ r. In r p.labels_rows) p.world.dlq m.topic
          m.partition m.offset m.value bad.topic bad.partition bad.offset bad.raw bad.exc
          bad.has_topic bad.has_partition bad.has_offset bad.has_value bad.raises
          (In-All (Passed x s env p) m batch all i).0

    Course-poisoned :
        (w : World T) {c : Option (Result (Unit {0}) × World T)}
        → Course x s env batch w c
        → (e : Exc) × (v : World T) × (c ≡ some (raise e, v))
          × (v.commits ≡ w.commits)
          × (v.tables ≡ w.tables)
    Course-poisoned w (unread e p h) =
        let g =
          subst (λ (c : Result (Unit {0}) × Progress R D T). Grows (start x s env w) c.1) h
            (collect-Grows x s env batch (start x s env w)) in
        (e, p.world, refl, g.commits, g.tables)
    Course-poisoned w (unwritten e p r h o q) =
        absurd (not-Passed p (All-Passed x s env batch w p h))
    Course-poisoned w (written p r h o q) = absurd (not-Passed p (All-Passed x s env batch w p h))

  -- A batch with a message that poisons (Poisons: one at which json.loads raises something other than
  -- JSONDecodeError) raises, whatever else is in it: no offset is committed and nothing is written to
  -- the database.
  pub process_batch-poisoned :
      (batch : List (Message B)) (m : Message B)
      → In m batch
      → Poisons x m
      → (w : World T)
      → (e : Exc) × (v : World T) × (process_batch x s env batch w ≡ some (raise e, v))
        × (v.commits ≡ w.commits)
        × (v.tables ≡ w.tables)
  process_batch-poisoned batch m i bad w =
      Course-poisoned batch m i bad w (process_batch-Course x s env batch w)
