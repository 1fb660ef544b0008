-- ===== src/Pipeline/Gold/Joined.antt =====
-- higgs_pipeline_tasks.py: the training dataset joins the accumulated curated tables, so "a feature
-- whose label arrives in a later run still gets picked up".
use agentic_ml_engineering_l.Base.{
  ℕ, zero, suc, String, true, Option, none, some, List, [], ◌∷◌, In, In-append_left,
  In-append_right, ◌≡◌, refl, sym, subst, ap, ◌∙◌, ==_sound, ==_refl, ◌⊎◌, inl, inr, is_some,
  Bool-cases, Exc, Result, ok, raise, arith,
}
use agentic_ml_engineering_l.Base.Equality.{string_eq}
use agentic_ml_engineering_l.Db.Upsert.{first, first-In, or_else_left, or_else_right}
use agentic_ml_engineering_l.Db.Block.{Faults, execute, execute-OnOk, transact_cases}
use agentic_ml_engineering_l.Db.Batches.{
  Inserted, Inserted-nil, insert_batches, insert_chunked-Inserted,
}
use agentic_ml_engineering_l.Db.Models.{
  CuratedHiggsFeature, CuratedHiggsLabel, CuratedTrainingRecord,
}
use agentic_ml_engineering_l.Pipeline.{Libraries, Database}
use agentic_ml_engineering_l.Pipeline.Chunks.{chunked, upsert_batch_size}
use agentic_ml_engineering_l.Pipeline.Gold.{
  training_part, training_record, with_labels, with_features, unjoined, query, untrained,
  same_entity, labels_of, build_training_dataset, upsert_training_records, Gold, GoldFaults,
  write_gold, after_upsert, after_build, build_training_dataset_task,
}

module _ {R : Type 0} (run_id : String) where
  In-with_labels :
      (f : CuratedHiggsFeature R) (l : CuratedHiggsLabel) (ls : List CuratedHiggsLabel)
      → In l ls
      → In (training_record run_id f l) (with_labels run_id f ls)
  unfolding with_labels
  In-with_labels f l [] i = elim i [ ]
  In-with_labels f l (m ∷ ls) (inl e) = inl (ap (training_record run_id f) e)
  In-with_labels f l (m ∷ ls) (inr i) = inr (In-with_labels f l ls i)

  with_labels-nil :
      (f : CuratedHiggsFeature R) (ls : List CuratedHiggsLabel)
      → ((l : CuratedHiggsLabel) → In l ls → ⊥)
      → with_labels run_id f ls ≡ []
  unfolding with_labels
  with_labels-nil f [] h = refl
  with_labels-nil f (l ∷ ls) h = absurd (h l (inl refl))

  module _ (labels_of : CuratedHiggsFeature R → List CuratedHiggsLabel) where
    In-with_features :
        (f : CuratedHiggsFeature R) (l : CuratedHiggsLabel) (fs : List (CuratedHiggsFeature R))
        → In f fs
        → In l (labels_of f)
        → In (training_record run_id f l) (with_features run_id labels_of fs)
    unfolding with_features
    In-with_features f l [] i j = elim i [ ]
    In-with_features f l (g ∷ fs) (inl e) j =
        In-append_left _ (with_labels run_id g (labels_of g)) _ (
          subst (λ h. In (training_record run_id f l) (with_labels run_id h (labels_of h))) e
            (In-with_labels f l (labels_of f) j))
    In-with_features f l (g ∷ fs) (inr i) j =
        In-append_right _ (with_labels run_id g (labels_of g)) _ (In-with_features f l fs i j)

    with_features-nil :
        (fs : List (CuratedHiggsFeature R))
        → ((f : CuratedHiggsFeature R) (l : CuratedHiggsLabel) → In f fs → In l (labels_of f) → ⊥)
        → with_features run_id labels_of fs ≡ []
    unfolding with_features
    with_features-nil [] h = refl
    with_features-nil (f ∷ fs) h =
        rw (with_labels-nil f (labels_of f) (λ l. h f l (inl refl)))
          (with_features-nil fs (λ g l i. h g l (inr i)))

module _ {R LF LL CF CL TR W : Type 0} (x : Libraries R LF LL CF CL TR W) where
  -- Every entity with a curated feature row and a curated label row has a training record.
  abbrev pub IsJoined : Database LF LL CF CL TR W → Type 0
  IsJoined db =
      (k k' : String) (f : CuratedHiggsFeature R) (l : CuratedHiggsLabel)
      → x.curated_features.upsert.lookup db.curated_features k ≡ some f
      → x.curated_labels.upsert.lookup db.curated_labels k' ≡ some l
      → f.entity_id ≡ l.entity_id
      → is_some (x.training_records.upsert.lookup db.training_records f.entity_id) ≡ true

  pub IsJoined-unjoined :
      (run_id : String) (db : Database LF LL CF CL TR W) → IsJoined db → unjoined x run_id db ≡ []
  unfolding unjoined
  IsJoined-unjoined run_id db j =
      with_features-nil run_id (labels_of x db)
        (x.curated_features.select (untrained x db) db.curated_features)
        λ f l i k.
          let (hf, free) =
            x.curated_features.select_sound (untrained x db) db.curated_features f i in
          let (hl, same) = x.curated_labels.select_sound (same_entity x f) db.curated_labels l k in
          let done = j _ _ f l hf hl (==_sound f.entity_id l.entity_id same) in ground arith

  module _ (run_id : String) (db : Database LF LL CF CL TR W) where
    pub built :
        (faults : Faults)
        → ((df : List (CuratedTrainingRecord R)) × (d : Database LF LL CF CL TR W)
            × (build_training_dataset x faults run_id db ≡ (ok df, d))
            × ((df ≡ unjoined x run_id db) × (d ≡ db)))
          ⊎ ((e : Exc) × (build_training_dataset x faults run_id db ≡ (raise e, db)))
    unfolding build_training_dataset
    built faults =
        transact_cases (λ df d. (df ≡ unjoined x run_id db) × (d ≡ db)) faults
          (execute faults (query x run_id)) db
          (execute-OnOk (λ df d. (df ≡ unjoined x run_id db) × (d ≡ db)) faults (query x run_id) db
            0 (unfold query in (refl, refl)))

    pub build_lem :
        (faults : Faults) (df : List (CuratedTrainingRecord R)) (db' : Database LF LL CF CL TR W)
        → build_training_dataset x faults run_id db ≡ (ok df, db')
        → (df ≡ unjoined x run_id db) × (db' ≡ db)
    build_lem faults df db' h = elim (built faults) [
      | inl (df2, d2, e, (p, q)) ↦ let r = sym e ∙ h in (cc, cc)
      | inr (exc, e) ↦ absurd (let r = sym e ∙ h in cc)
    ]

    pub Inserted-IsJoined :
        (db' : Database LF LL CF CL TR W)
        → Inserted x.training_records.upsert training_part db (unjoined x run_id db) db'
        → IsJoined db'
    unfolding unjoined
    Inserted-IsJoined db' i = subst IsJoined (sym i.only) λ k k' f l hf hl e.
        rw (i.lookup f.entity_id)
          (elim (Bool-cases
            (is_some (x.training_records.upsert.lookup db.training_records f.entity_id))) [
              | inl old ↦ or_else_left _ _ old
              | inr new ↦
                  let feature =
                    x.curated_features.select_complete (untrained x db) db.curated_features f
                      (rw (x.curated_features.lookup-key db.curated_features k f hf) hf)
                      (ground arith) in
                  let label =
                    x.curated_labels.select_complete (same_entity x f) db.curated_labels l
                      (rw (x.curated_labels.lookup-key db.curated_labels k' l hl) hl)
                      (rw e (==_refl l.entity_id)) in
                  let i = In-with_features run_id (labels_of x db) f l _ feature label in
                  or_else_right _ _ (
                    subst
                      (λ key.
                        is_some (first x.training_records.upsert.key key (unjoined x run_id db))
                        ≡ true)
                      (x.training_records_key (training_record run_id f l))
                      (first-In x.training_records.upsert (training_record run_id f l)
                        (unjoined x run_id db) i))
            ])

  -- The upsert of a frame: it has its effect, or raises and has none.
  pub upsert_cases :
      (faults : Faults) (df : List (CuratedTrainingRecord R)) (db : Database LF LL CF CL TR W)
      → ((n : ℕ) × (db' : Database LF LL CF CL TR W) × (upsert_training_records x faults df db
            ≡ (ok n, db'))
          × Inserted x.training_records.upsert training_part db df db')
        ⊎ ((e : Exc) × (upsert_training_records x faults df db ≡ (raise e, db)))
  unfolding upsert_training_records
  upsert_cases faults [] db =
      inl (0, db, refl, Inserted-nil x.training_records.upsert training_part db)
  upsert_cases faults (r ∷ df) db =
      transact_cases (λ _ d'. Inserted x.training_records.upsert training_part db (r ∷ df) d')
        faults
        (insert_batches x.training_records.upsert training_part faults
          (chunked (r ∷ df) upsert_batch_size) 0)
        db
        (insert_chunked-Inserted x.training_records.upsert training_part faults (r ∷ df)
          upsert_batch_size db 0 (omega arith))

  module _ (f : GoldFaults) (run_id : String) (db : Database LF LL CF CL TR W) (gold : Gold R) where
    write_gold_db :
        (error : Option Exc) (n : ℕ) (df : List (CuratedTrainingRecord R))
        (d : Database LF LL CF CL TR W)
        → (write_gold x f run_id error n df d gold).1 ≡ d
    unfolding write_gold
    write_gold_db error zero df d = refl
    write_gold_db none (suc n) df d = refl
    write_gold_db (some e) (suc n) df d = refl

    -- The task, once its query has returned.
    pub task_lem :
        {r : Result (List (CuratedTrainingRecord R)) × Database LF LL CF CL TR W}
        → build_training_dataset x f.build run_id db ≡ r
        → build_training_dataset_task x f run_id db gold ≡ after_build x f run_id gold r
    unfolding build_training_dataset_task
    task_lem e = rw e

    upserted-IsJoined :
        (df : List (CuratedTrainingRecord R)) (r : ℕ × Option String)
        (db' : Database LF LL CF CL TR W) (gold' : Gold R)
        → df ≡ unjoined x run_id db
        → after_upsert x f run_id df gold (upsert_training_records x f.upsert df db)
          ≡ (ok r, db', gold')
        → IsJoined db'
    upserted-IsJoined df r db' gold' p h = elim (upsert_cases f.upsert df db) [
      | inr (exc, e) ↦ absurd (unfold after_upsert in (let q = rw e at h in cc))
      | inl (n, d', e, i) ↦
          let q : write_gold x f run_id f.put n df d' gold ≡ (ok r, db', gold') =
            unfold after_upsert in (rw e at h) in
          let same : d' ≡ db' =
            sym (write_gold_db f.put n df d')
            ∙ ap (λ (t : Result (ℕ × Option String) × Database LF LL CF CL TR W × Gold R). t.1) q in
          subst IsJoined same (
            Inserted-IsJoined run_id db d'
              (subst (λ l. Inserted x.training_records.upsert training_part db l d') p i))
    ]

    -- When the task returns, every entity with a curated feature row and a curated label row has a
    -- training record, whichever run curated them.
    pub build_training_dataset_task-IsJoined :
        (r : ℕ × Option String) (db' : Database LF LL CF CL TR W) (gold' : Gold R)
        → build_training_dataset_task x f run_id db gold ≡ (ok r, db', gold')
        → IsJoined db'
    build_training_dataset_task-IsJoined r db' gold' h = elim (built run_id db f.build) [
      | inr (exc, e) ↦ absurd (let q = sym (task_lem e) ∙ h in unfold after_build in cc)
      | inl (df, d, e, (p, q)) ↦
          upserted-IsJoined df r db' gold' p (unfold after_build in rw q at (sym (task_lem e) ∙ h))
    ]
