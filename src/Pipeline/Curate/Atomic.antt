-- ===== src/Pipeline/Curate/Atomic.antt =====
-- higgs_pipeline_tasks.py: "curated upserts and both watermark advances happen in one transaction".
use agentic_ml_engineering_l.Base.{
  ℕ, String, List, [], ◌∷◌, map, ◌≡◌, refl, ap, ◌∙◌, ◌⊎◌, or_else, Exc, ok, raise, arith,
}
use agentic_ml_engineering_l.Db.Upsert.{first}
use agentic_ml_engineering_l.Db.Block.{
  Faults, OnOk, return-OnOk, execute-OnOk, >>=-OnOk, transact_cases,
}
use agentic_ml_engineering_l.Db.Batches.{Inserted, Inserted-nil, insert_chunked-Inserted}
use agentic_ml_engineering_l.Pipeline.{Libraries, Database, FeatureRecord, LabelRecord}
use agentic_ml_engineering_l.Pipeline.Chunks.{upsert_batch_size}
use agentic_ml_engineering_l.Pipeline.Extract.{features_pipeline, labels_pipeline}
use agentic_ml_engineering_l.Pipeline.Watermark.{advance_watermark}
use agentic_ml_engineering_l.Pipeline.Curate.{
  curated_features_part, curated_labels_part, curated_feature, curated_label,
  update_curated_features, update_curated_labels, advance, advance_in, curation,
  update_curated_tables_and_advance_watermarks,
}

module _ {R LF LL CF CL TR W : Type 0} (x : Libraries R LF LL CF CL TR W) where
  abbrev pub Db : Type 0
  Db = Database LF LL CF CL TR W

  -- What a committed run leaves. A stored row stays, and every row of the two frames has a row under
  -- its event_id, the run's own where none was stored; both watermarks have moved to the upper bound,
  -- unless they were past it; nothing else changes.
  pub record Curated (features_df : List (FeatureRecord R)) (labels_df : List LabelRecord)
      (run_id : String) (upper_bound : ℕ) (d d' : Db) : Type 0 where
    pub curated_features : CF
    pub curated_labels : CL
    pub only : d' ≡ record d {
      curated_features = curated_features;
      curated_labels = curated_labels;
      watermarks =
          advance_watermark x.watermarks labels_pipeline upper_bound
            (advance_watermark x.watermarks features_pipeline upper_bound d.watermarks);
    }
    pub features :
        (k : String)
        → x.curated_features.upsert.lookup curated_features k
          ≡ or_else
              (x.curated_features.upsert.lookup d.curated_features k)
              (first x.curated_features.upsert.key k (map (curated_feature x run_id) features_df))
    pub labels :
        (k : String)
        → x.curated_labels.upsert.lookup curated_labels k
          ≡ or_else
              (x.curated_labels.upsert.lookup d.curated_labels k)
              (first x.curated_labels.upsert.key k (map (curated_label run_id) labels_df))

  module _ (faults : Faults) where
    features_Inserted :
        (df : List (FeatureRecord R)) (run_id : String) (d : Db) (n : ℕ)
        → OnOk
            (λ _ d'.
              Inserted x.curated_features.upsert curated_features_part d
                (map (curated_feature x run_id) df)
                d')
            (update_curated_features x faults df run_id d n)
    unfolding update_curated_features
    features_Inserted [] run_id d n = Inserted-nil x.curated_features.upsert curated_features_part d
    features_Inserted (r ∷ df) run_id d n =
        insert_chunked-Inserted x.curated_features.upsert curated_features_part faults
          (map (curated_feature x run_id) (r ∷ df)) upsert_batch_size d n (omega arith)

    labels_Inserted :
        (df : List LabelRecord) (run_id : String) (d : Db) (n : ℕ)
        → OnOk
            (λ _ d'.
              Inserted x.curated_labels.upsert curated_labels_part d
                (map (curated_label run_id) df)
                d')
            (update_curated_labels x faults df run_id d n)
    unfolding update_curated_labels
    labels_Inserted [] run_id d n = Inserted-nil x.curated_labels.upsert curated_labels_part d
    labels_Inserted (r ∷ df) run_id d n =
        insert_chunked-Inserted x.curated_labels.upsert curated_labels_part faults
          (map (curated_label run_id) (r ∷ df)) upsert_batch_size d n (omega arith)

    advance_in-OnOk :
        (name : String) (u : ℕ) (d : Db) (n : ℕ)
        → OnOk
            (λ _ d'.
              d' ≡ record d { watermarks = advance_watermark x.watermarks name u d.watermarks })
            (advance_in x faults name u d n)
    unfolding advance_in
    advance_in-OnOk name u d n =
        execute-OnOk
          (λ _ d'.
            d' ≡ record d { watermarks = advance_watermark x.watermarks name u d.watermarks })
          faults (advance x faults name u) d n refl

    -- The four parts of the block, joined.
    joined :
        (fs : List (FeatureRecord R)) (ls : List LabelRecord) (run_id : String) (u : ℕ)
        (d d1 d2 d3 d4 : Db)
        → Inserted x.curated_features.upsert curated_features_part d
            (map (curated_feature x run_id) fs)
            d1
        → Inserted x.curated_labels.upsert curated_labels_part d1 (map (curated_label run_id) ls) d2
        → d3 ≡ record d2 {
          watermarks = advance_watermark x.watermarks features_pipeline u d2.watermarks;
        }
        → d4 ≡ record d3 {
          watermarks = advance_watermark x.watermarks labels_pipeline u d3.watermarks;
        }
        → Curated fs ls run_id u d d4
    joined fs ls run_id u d d1 d2 d3 d4 f l w v = record {
      curated_features = f.table;
      curated_labels = l.table;
      only =
          v
          ∙ ap
              (λ (e : Db). record e {
                watermarks = advance_watermark x.watermarks labels_pipeline u e.watermarks;
              })
              (w
                ∙ ap
                    (λ (e : Db). record e {
                      watermarks = advance_watermark x.watermarks features_pipeline u e.watermarks;
                    })
                    (l.only ∙ ap (λ (e : Db). record e { curated_labels = l.table }) f.only));
      features = f.lookup;
      labels = λ k.
          l.lookup k
          ∙ ap
              (λ (e : Db).
                or_else (x.curated_labels.upsert.lookup e.curated_labels k)
                  (first x.curated_labels.upsert.key k (map (curated_label run_id) ls)))
              f.only;
    }

    curation-Curated :
        (fs : List (FeatureRecord R)) (ls : List LabelRecord) (run_id : String) (u : ℕ) (d : Db)
        (n : ℕ)
        → OnOk (λ _ d'. Curated fs ls run_id u d d') (curation x faults fs ls run_id u d n)
    unfolding curation
    curation-Curated fs ls run_id u d n =
        >>=-OnOk _ _ (update_curated_features x faults fs run_id) _ d n
          (features_Inserted fs run_id d n)
          λ f d1 n1 i.
            >>=-OnOk _ _ (update_curated_labels x faults ls run_id) _ d1 n1
              (labels_Inserted ls run_id d1 n1)
              λ l d2 n2 j.
                >>=-OnOk _ _ (advance_in x faults features_pipeline u) _ d2 n2
                  (advance_in-OnOk features_pipeline u d2 n2)
                  λ _ d3 n3 w.
                    >>=-OnOk _ _ (advance_in x faults labels_pipeline u) _ d3 n3
                      (advance_in-OnOk labels_pipeline u d3 n3)
                      λ _ d4 n4 v.
                        return-OnOk (λ (c : ℕ × ℕ) d'. Curated fs ls run_id u d d') (f, l) d4 n4
                          (joined fs ls run_id u d d1 d2 d3 d4 i j w v)

    -- Whatever statement or commit fails, the task either returns, and then it leaves what a committed
    -- run leaves (Curated), or raises, and then the database is as it was.
    pub update_curated_tables_and_advance_watermarks-IsAtomic :
        (fs : List (FeatureRecord R)) (ls : List LabelRecord) (run_id : String) (u : ℕ) (d : Db)
        → ((counts : ℕ × ℕ) × (d' : Db) × (update_curated_tables_and_advance_watermarks x faults fs
                ls run_id u d
              ≡ (ok counts, d'))
            × Curated fs ls run_id u d d')
          ⊎ ((e : Exc) × (update_curated_tables_and_advance_watermarks x faults fs ls run_id u d
                ≡ (raise e, d)))
    unfolding update_curated_tables_and_advance_watermarks
    update_curated_tables_and_advance_watermarks-IsAtomic fs ls run_id u d =
        transact_cases (λ _ d'. Curated fs ls run_id u d d') faults
          (curation x faults fs ls run_id u) d (curation-Curated fs ls run_id u d 0)
