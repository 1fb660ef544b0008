-- ===== src/Pipeline/Gold/Retry.antt =====
-- higgs_pipeline.py, `build_training_dataset_task`: an attempt that fails at `put_parquet` has already
-- committed the training records, so a retry finds nothing to write.
use agentic_ml_engineering_l.Base.{
  ℕ, suc, String, Option, none, some, List, ◌≡◌, sym, subst, ◌∙◌, inl, inr, Exc, ok, raise,
}
use agentic_ml_engineering_l.Db.Batches.{Inserted}
use agentic_ml_engineering_l.Db.Models.{CuratedTrainingRecord}
use agentic_ml_engineering_l.Pipeline.{Libraries, Database}
use agentic_ml_engineering_l.Pipeline.Gold.{
  Gold, GoldFaults, training_part, build_training_dataset, upsert_training_records, after_build,
  build_training_dataset_task,
}
use agentic_ml_engineering_l.Pipeline.Gold.Joined.{
  IsJoined, IsJoined-unjoined, build_lem, upsert_cases, task_lem, built, Inserted-IsJoined,
}

module _ {R LF LL CF CL TR W : Type 0} (x : Libraries R LF LL CF CL TR W) (run_id : String) where
  -- With every entity joined, an attempt that returns has written nothing.
  nothing_left :
      (g : GoldFaults) (db : Database LF LL CF CL TR W) (gold : Gold R) (r : ℕ × Option String)
      (db' : Database LF LL CF CL TR W) (gold' : Gold R)
      → IsJoined x db
      → build_training_dataset_task x g run_id db gold ≡ (ok r, db', gold')
      → (r ≡ (0, none)) × (gold' ≡ gold)
  nothing_left g db gold r db' gold' j h = elim (built x run_id db g.build) [
    | inr (exc, e) ↦
        absurd (let q = sym (task_lem x g run_id db gold e) ∙ h in unfold after_build in cc)
    | inl (df, d, e, (p, q)) ↦
        let none_left = p ∙ IsJoined-unjoined x run_id db j in
        unfold after_build in
        (let s = rw none_left at (sym (task_lem x g run_id db gold e) ∙ h) in (cc, cc))
  ]

  module _ (f : GoldFaults) (e : Exc) (n : ℕ) (df : List (CuratedTrainingRecord R))
      (db db1 : Database LF LL CF CL TR W) (gold : Gold R) (put_fails : f.put ≡ some e)
      (built_df : build_training_dataset x f.build run_id db ≡ (ok df, db))
      (upserted : upsert_training_records x f.upsert df db ≡ (ok (suc n), db1)) where
    first_attempt : build_training_dataset_task x f run_id db gold ≡ (raise e, db1, gold)
    first_attempt =
        task_lem x f run_id db gold built_df ∙ (unfold after_build in rw (upserted, put_fails))

    joined : IsJoined x db1
    joined = elim (upsert_cases x f.upsert df db) [
      | inr (exc, q) ↦ absurd (let s = sym q ∙ upserted in cc)
      | inl (m, d, q, i) ↦
          let p = (build_lem x run_id db f.build df db built_df).0 in
          let same : d ≡ db1 = let s = sym q ∙ upserted in cc in
          subst (IsJoined x) same (
            Inserted-IsJoined x run_id db d
              (subst (λ l. Inserted x.training_records.upsert training_part db l d) p i))
    ]

    -- Where the training records of an attempt commit and its `put_parquet` fails, the attempt raises
    -- with no gold object written, and a retry of the task that returns, whatever fails on its way,
    -- reports no new record and no key and leaves the gold bucket as it was: the records that were
    -- committed reach no gold object.
    pub build_training_dataset_task-lost :
        (g : GoldFaults) (r : ℕ × Option String) (db2 : Database LF LL CF CL TR W) (gold2 : Gold R)
        → build_training_dataset_task x g run_id db1 gold ≡ (ok r, db2, gold2)
        → (build_training_dataset_task x f run_id db gold ≡ (raise e, db1, gold))
          × (r ≡ (0, none))
          × (gold2 ≡ gold)
    build_training_dataset_task-lost g r db2 gold2 h =
        let (p, q) = nothing_left g db1 gold r db2 gold2 joined h in (first_attempt, p, q)
