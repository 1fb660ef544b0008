-- ===== src/Pipeline/Gold.antt =====
-- higgs_pipeline_tasks.py, `build_training_dataset` and `upsert_training_records`, with the task of
-- higgs_pipeline.py that calls them and writes the gold object.
pub mod Joined
pub mod Retry
use agentic_ml_engineering_l.Base.{
  ℕ, zero, suc, String, Bool, true, false, not, Option, none, some, List, [], ◌∷◌, ◌++◌, ◌≡◌, refl,
  ◌==◌, is_some, if◌then◌else◌, Exc, Result, ok, raise,
}
use agentic_ml_engineering_l.Base.Dict.{Dict, put}
use agentic_ml_engineering_l.Base.Equality.{string_eq}
use agentic_ml_engineering_l.Db.Block.{Block, Faults, return, execute, ◌>>=◌, transact}
use agentic_ml_engineering_l.Db.Batches.{Part, insert_batches}
use agentic_ml_engineering_l.Db.Models.{
  CuratedHiggsFeature, CuratedHiggsLabel, CuratedTrainingRecord,
}
use agentic_ml_engineering_l.Pipeline.{Libraries, Database}
use agentic_ml_engineering_l.Pipeline.Chunks.{chunked, upsert_batch_size}
use agentic_ml_engineering_l.Pipeline.Keys.{gold_training_key}

module _ {LF LL CF CL TR W : Type 0} where
  abbrev pub training_part : Part (Database LF LL CF CL TR W) TR
  training_part = record {
    read = λ d. d.training_records;
    write = λ t d. record d { training_records = t };
    read-write = λ t d. refl;
    write-write = λ t u d. refl;
    write-read = λ d. refl;
  }

module _ {R : Type 0} where
  abbrev pub training_record :
      String → CuratedHiggsFeature R → CuratedHiggsLabel → CuratedTrainingRecord R
  training_record run_id feat label = record {
    entity_id = feat.entity_id;
    feature_event_id = feat.event_id;
    label_event_id = label.event_id;
    event_timestamp = feat.event_timestamp;
    features = feat.features;
    target = label.target;
    schema_version = feat.schema_version;
    source_run_id = run_id;
  }

  unfoldable pub with_labels :
      String → CuratedHiggsFeature R → List CuratedHiggsLabel → List (CuratedTrainingRecord R)
  with_labels run_id feat [] = []
  with_labels run_id feat (label ∷ labels) =
      training_record run_id feat label ∷ with_labels run_id feat labels

  -- One list of labels for each feature row.
  unfoldable pub with_features :
      String
      → (CuratedHiggsFeature R → List CuratedHiggsLabel)
      → List (CuratedHiggsFeature R)
      → List (CuratedTrainingRecord R)
  unfolding with_labels
  with_features run_id labels_of [] = []
  with_features run_id labels_of (feat ∷ feats) =
      with_labels run_id feat (labels_of feat) ++ with_features run_id labels_of feats

module _ {R LF LL CF CL TR W : Type 0} (x : Libraries R LF LL CF CL TR W) where
  -- training_records.entity_id IS NULL after the outer join
  abbrev pub untrained : Database LF LL CF CL TR W → CuratedHiggsFeature R → Bool
  untrained db feat =
      not (is_some (x.training_records.upsert.lookup db.training_records feat.entity_id))

  abbrev pub same_entity : CuratedHiggsFeature R → CuratedHiggsLabel → Bool
  same_entity feat label = feat.entity_id == label.entity_id

  abbrev pub labels_of : Database LF LL CF CL TR W → CuratedHiggsFeature R → List CuratedHiggsLabel
  labels_of db feat = x.curated_labels.select (same_entity feat) db.curated_labels

  -- The query: the features with no training record for their entity, joined with the labels of the
  -- same entity.
  unfoldable pub unjoined : String → Database LF LL CF CL TR W → List (CuratedTrainingRecord R)
  unfolding with_features
  unjoined run_id db =
      with_features run_id (labels_of db)
        (x.curated_features.select (untrained db) db.curated_features)

  query :
      String
      → Database LF LL CF CL TR W
      → List (CuratedTrainingRecord R) × Database LF LL CF CL TR W
  unfolding unjoined
  query run_id db = (unjoined run_id db, db)

  unfoldable pub build_training_dataset :
      Faults
      → String
      → Database LF LL CF CL TR W
      → Result (List (CuratedTrainingRecord R)) × Database LF LL CF CL TR W
  unfolding transact execute query
  build_training_dataset faults run_id = transact faults (execute faults (query run_id))

  unfoldable pub upsert_training_records :
      Faults
      → List (CuratedTrainingRecord R)
      → Database LF LL CF CL TR W
      → Result ℕ × Database LF LL CF CL TR W
  unfolding transact insert_batches chunked
  upsert_training_records faults [] db = (ok 0, db)
  upsert_training_records faults (r ∷ df) db =
      transact faults
        (insert_batches x.training_records.upsert training_part faults
          (chunked (r ∷ df) upsert_batch_size) 0)
        db

-- The gold bucket: the frame of each object.
abbrev pub Gold : Type 0 → Type 0
Gold R = Dict String (List (CuratedTrainingRecord R))

-- What goes wrong in one attempt of the task: in its two transactions, and in `put_parquet`.
pub record GoldFaults : Type 0 where
  pub build : Faults
  pub upsert : Faults
  pub put : Option Exc

module _ {R LF LL CF CL TR W : Type 0} (x : Libraries R LF LL CF CL TR W) (f : GoldFaults)
    (run_id : String) where
  write_gold :
      Option Exc
      → ℕ
      → List (CuratedTrainingRecord R)
      → Database LF LL CF CL TR W
      → Gold R
      → Result (ℕ × Option String) × Database LF LL CF CL TR W × Gold R
  unfolding gold_training_key put
  write_gold error zero df db gold = (ok (0, none), db, gold)
  write_gold (some e) (suc n) df db gold = (raise e, db, gold)
  write_gold none (suc n) df db gold =
      (ok (suc n, some (gold_training_key run_id)), db, put (gold_training_key run_id) df gold)

  after_upsert :
      List (CuratedTrainingRecord R)
      → Gold R
      → Result ℕ × Database LF LL CF CL TR W
      → Result (ℕ × Option String) × Database LF LL CF CL TR W × Gold R
  unfolding write_gold
  after_upsert df gold (raise e, db) = (raise e, db, gold)
  after_upsert df gold (ok new_count, db) = write_gold f.put new_count df db gold

  pub after_build :
      Gold R
      → Result (List (CuratedTrainingRecord R)) × Database LF LL CF CL TR W
      → Result (ℕ × Option String) × Database LF LL CF CL TR W × Gold R
  unfolding after_upsert upsert_training_records
  after_build gold (raise e, db) = (raise e, db, gold)
  after_build gold (ok df, db) = after_upsert df gold (upsert_training_records x f.upsert df db)

  -- The result is training_records_new and gold_training_key.
  unfoldable pub build_training_dataset_task :
      Database LF LL CF CL TR W
      → Gold R
      → Result (ℕ × Option String) × Database LF LL CF CL TR W × Gold R
  unfolding after_build build_training_dataset
  build_training_dataset_task db gold =
      after_build gold (build_training_dataset x f.build run_id db)
