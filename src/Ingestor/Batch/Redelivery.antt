-- ===== src/Ingestor/Batch/Redelivery.antt =====
-- consumer.py: the effect of a batch that returns, as a whole, and of its redelivery.
use agentic_ml_engineering_l.Base.{
  String, Option, none, some, List, [], ◌∷◌, ◌++◌, ◌≡◌, ◌∙◌, ap, subst, Result, ok, arith, or_else,
}
use agentic_ml_engineering_l.Db.Upsert.{first, or_else_again}
use agentic_ml_engineering_l.Ingestor.{Settings, Message, Row, External, World, Env}
use agentic_ml_engineering_l.Ingestor.Write.Retry.{store, Outcome, stored}
use agentic_ml_engineering_l.Ingestor.Write.{Written}
use agentic_ml_engineering_l.Ingestor.Batch.{
  Progress, process_batch, collect, commit_offsets, next_offsets,
}
use agentic_ml_engineering_l.Ingestor.Batch.Grows.{OnReturn}
use agentic_ml_engineering_l.Ingestor.Batch.Commit.{
  Course, unread, unwritten, written, start, process_batch-Course, commit_offsets-Keeps,
}
use agentic_ml_engineering_l.Ingestor.Batch.Promise.{grown, tables_stored}
use agentic_ml_engineering_l.Ingestor.Batch.Reference.{
  Adds, collect-Adds, features_of, labels_of, letters_of,
}

module _ {B R D T : Type 0} (x : External B R D T) (s : Settings) where
  lookup-store :
      (rows : List (Row R D)) (t : T) (k : String)
      → x.landing.lookup (store x rows t) k
        ≡ or_else (x.landing.lookup t k) (first x.landing.key k rows)
  lookup-store [] t k = unfold first in ground arith
  lookup-store (r ∷ rows) t k = x.landing.lookup-insert (r ∷ rows) t k

  -- The database and the dead letters after a batch: a key that was in a table keeps its row, and
  -- a new key has the first row of the batch with it; the dead letters come behind the old ones.
  pub record Effect (env : Env) (batch : List (Message B)) (w v : World T) : Type 0 where
    pub features :
        (k : String)
        → x.landing.lookup v.tables.features k
          ≡ or_else
              (x.landing.lookup w.tables.features k)
              (first x.landing.key k (features_of x s batch))
    pub labels :
        (k : String)
        → x.landing.lookup v.tables.labels k
          ≡ or_else
              (x.landing.lookup w.tables.labels k)
              (first x.landing.key k (labels_of x s batch))
    pub letters : v.dlq ≡ w.dlq ++ letters_of x s env batch

  module _ (env : Env) (batch : List (Message B)) (w : World T) (p : Progress R D T) (r : Written T)
      (h : collect x s env batch (start x s env w) ≡ (ok tt, p))
      (o : Outcome x s env p.features_rows p.labels_rows p.world r) (e : r.result ≡ ok tt) where
    added :
        Adds x s env
          (start x s env w)
          (features_of x s batch)
          (labels_of x s batch)
          (letters_of x s env batch)
          p
    added =
        subst
          (OnReturn (
            Adds x s env (start x s env w) (features_of x s batch) (labels_of x s batch)
              (letters_of x s env batch)))
          h (collect-Adds x s env batch (start x s env w))

    abbrev after_commit : World T
    after_commit = (commit_offsets (next_offsets p.max_offset) env.commit_error r.world).1

    tables_after :
        after_commit.tables ≡ stored x (features_of x s batch) (labels_of x s batch) w.tables
    tables_after =
        (commit_offsets-Keeps x s env (next_offsets p.max_offset) env.commit_error r.world).tables
        ∙ tables_stored x s env batch w p r h o e
        ∙ rw (added.features_rows, added.labels_rows, (grown x s env batch w p r h o e).tables)

    written-Effect : Effect env batch w after_commit
    written-Effect = record {
      features = λ k. rw tables_after (lookup-store (features_of x s batch) w.tables.features k);
      labels = λ k. rw tables_after (lookup-store (labels_of x s batch) w.tables.labels k);
      letters =
          (commit_offsets-Keeps x s env (next_offsets p.max_offset) env.commit_error r.world).dlq
          ∙ o.rest.dlq
          ∙ added.letters;
    }

  abbrev world_of : World T → Option (Result (Unit {0}) × World T) → World T
  world_of v none = v
  world_of v (some (r, w)) = w

  Course-Effect :
      (env : Env) (batch : List (Message B)) (w v : World T)
      {c : Option (Result (Unit {0}) × World T)}
      → Course x s env batch w c
      → c ≡ some (ok tt, v)
      → Effect env batch w v
  Course-Effect env batch w v (unread e p h) q = cc
  Course-Effect env batch w v (unwritten e p r h o f) q = cc
  Course-Effect env batch w v (written p r h o f) q =
      subst (Effect env batch w) (ap (world_of v) q) (written-Effect env batch w p r h o f)

  -- After a batch that returns, a lookup in either table gives the row that was there, or else the first
  -- row with the key among the batch's valid messages of the table's topic; and the dead letters are
  -- those of before and behind them those of the batch's rejected messages, in order.
  pub process_batch-Effect :
      (env : Env) (batch : List (Message B)) (w v : World T)
      → process_batch x s env batch w ≡ some (ok tt, v)
      → Effect env batch w v
  process_batch-Effect env batch w v q =
      Course-Effect env batch w v (process_batch-Course x s env batch w) q

  -- When a batch that has returned is delivered again and returns, every lookup in both tables
  -- stays, whatever failed on the way in either run.
  pub process_batch_twice :
      (env again : Env) (batch : List (Message B)) (w v u : World T)
      → process_batch x s env batch w ≡ some (ok tt, v)
      → process_batch x s again batch v ≡ some (ok tt, u)
      → (k : String)
      → (x.landing.lookup u.tables.features k ≡ x.landing.lookup v.tables.features k)
        × (x.landing.lookup u.tables.labels k ≡ x.landing.lookup v.tables.labels k)
  process_batch_twice env again batch w v u q q' k =
      let a = process_batch-Effect env batch w v q in
      let b = process_batch-Effect again batch v u q' in
      (
        rw (b.features k, a.features k)
            (or_else_again (x.landing.lookup w.tables.features k)
              (first x.landing.key k (features_of x s batch))),
        rw (b.labels k, a.labels k)
            (or_else_again (x.landing.lookup w.tables.labels k)
              (first x.landing.key k (labels_of x s batch))),
      )
