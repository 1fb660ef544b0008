-- ===== src/Pipeline/Runs/Commit.antt =====
-- The step that curates a job keeps the invariant of the runs, also where it raises.
use agentic_ml_engineering_l.Base.{
  ℕ, ◌≤◌, String, true, Option, none, some, List, [], ◌∷◌, map, In, In-All, All-map, In-map, ◌≡◌,
  refl, sym, subst, ◌⊎◌, inl, inr, is_some, or_else, ok, raise, Exc,
}
use native.Mathlib.Nat.{le_trans}
use agentic_ml_engineering_l.Db.Block.{Faults}
use agentic_ml_engineering_l.Db.Upsert.{Upsert, first, first-In, or_else_left}
use agentic_ml_engineering_l.Pipeline.{Libraries, Database, FeatureRecord, LabelRecord}
use agentic_ml_engineering_l.Pipeline.Validation.{Pandera, validate, features_schema, labels_schema}
use agentic_ml_engineering_l.Pipeline.Validation.Partition.{Blamed, validate-Partition}
use agentic_ml_engineering_l.Pipeline.Watermark.{
  epoch, get_watermark, advance_watermark, get_watermark-advance_watermark_le,
  get_watermark-advance_watermark_cover,
}
use agentic_ml_engineering_l.Pipeline.Extract.{
  features_pipeline, labels_pipeline, validate_features, validate_labels, transform_features,
  transform_labels,
}
use agentic_ml_engineering_l.Pipeline.Curate.{curated_feature, curated_label}
use agentic_ml_engineering_l.Pipeline.Curate.Atomic.{
  Curated, update_curated_tables_and_advance_watermarks-IsAtomic,
}
use agentic_ml_engineering_l.Pipeline.Runs.{Job, curate}
use agentic_ml_engineering_l.Pipeline.Runs.Stream.{Due-later, Kept-map, Kept-advance}
use agentic_ml_engineering_l.Pipeline.Runs.Invariant.{
  S, FeatureDone, LabelDone, FeatureIn, LabelIn, Owes, IsComplete,
}

module _ {Row : Type 0} (pandera : Pandera Row) where
  -- A row of a frame is among the valid ones, or a failure case names it.
  pub validate_kept :
      (df : List Row) (schema : _) (r : Row)
      → In r df
      → In r (validate pandera df schema).0 ⊎ Blamed pandera df schema r
  validate_kept [] schema r i = elim i [ ]
  validate_kept (s ∷ df) schema r i = (validate-Partition pandera schema s df).kept r i

module _ {T Row Src : Type 0} (db : Upsert T Row) (key : Src → String) (f : Src → Row)
    (same : (s : Src) → db.key (f s) ≡ key s) where
  -- A row of the inserted frame is found under its key.
  pub found :
      (before : Option Row) (s : Src) (rows : List Src)
      → In s rows
      → is_some (or_else before (first db.key (key s) (map f rows))) ≡ true
  found (some r) s rows i = refl
  found none s rows i = rw (← same s) (first-In db (f s) (map f rows) (In-map f s rows i))

module _ {R LF LL CF CL TR W : Type 0} (x : Libraries R LF LL CF CL TR W)
    (fp : Pandera (FeatureRecord R)) (lp : Pandera LabelRecord) where
  pub FeatureDone-again :
      (db : Database LF LL CF CL TR W) (v : ℕ × Job R) (validated : List (ℕ × Job R)) (k : String)
      → FeatureDone x fp lp db validated k
      → FeatureDone x fp lp db (v ∷ validated) k
  FeatureDone-again db v validated k (inl c) = inl c
  FeatureDone-again db v validated k (inr (w, i, r, b, e)) = inr (w, inr i, r, b, e)

  pub LabelDone-again :
      (db : Database LF LL CF CL TR W) (v : ℕ × Job R) (validated : List (ℕ × Job R)) (k : String)
      → LabelDone x fp lp db validated k
      → LabelDone x fp lp db (v ∷ validated) k
  LabelDone-again db v validated k (inl c) = inl c
  LabelDone-again db v validated k (inr (w, i, r, b, e)) = inr (w, inr i, r, b, e)

  -- The curation raised.
  pub failed-IsComplete :
      (s : S x fp lp) (v : ℕ × Job R)
      → IsComplete x fp lp s
      → IsComplete x fp lp (record s { validated = v ∷ s.validated })
  failed-IsComplete s v c = record {
    features =
        Kept-map x.landing_features (λ r. r.ingested_at) s.db.landing_features _ _ _
          (FeatureDone-again s.db v s.validated) c.features;
    labels =
        Kept-map x.landing_labels (λ r. r.ingested_at) s.db.landing_labels _ _ _
          (LabelDone-again s.db v s.validated) c.labels;
    behind = c.behind;
    owes = c.owes;
  }

  abbrev pub advanced : W → ℕ → W
  advanced w u =
      advance_watermark x.watermarks labels_pipeline u
        (advance_watermark x.watermarks features_pipeline u w)

  module _ (w : W) (u : ℕ) (late : epoch ≤ u) where
    pub advanced_le :
        (name : String)
        → get_watermark x.watermarks w name ≤ get_watermark x.watermarks (advanced w u) name
    advanced_le name =
        le_trans (get_watermark-advance_watermark_le x.watermarks features_pipeline name u w late)
          (get_watermark-advance_watermark_le x.watermarks labels_pipeline name u _ late)

    pub advanced_cover :
        (name : String) (n : ℕ)
        → n ≤ get_watermark x.watermarks (advanced w u) name
        → (n ≤ get_watermark x.watermarks w name) ⊎ (n ≤ u)
    advanced_cover name n h =
        elim (get_watermark-advance_watermark_cover x.watermarks labels_pipeline name u n _ h) [
          | inl p ↦
              get_watermark-advance_watermark_cover x.watermarks features_pipeline name u n w p
          | inr p ↦ inr p
        ]

  module _ (s : S x fp lp) (now : ℕ) (j : Job R) (run_id : String) (db' : Database LF LL CF CL TR W)
      (d : Curated x
        (transform_features x (validate_features fp now j.features).0)
        (transform_labels x (validate_labels lp now j.labels).0)
        run_id
        j.bounds.upper_bound
        s.db
        db') where
    -- What the transaction leaves.
    abbrev pub left : Database LF LL CF CL TR W
    left = record s.db {
      curated_features = d.curated_features;
      curated_labels = d.curated_labels;
      watermarks = advanced s.db.watermarks j.bounds.upper_bound;
    }

    pub FeatureDone-kept :
        (k : String)
        → FeatureDone x fp lp s.db s.validated k
        → FeatureDone x fp lp left ((now, j) ∷ s.validated) k
    FeatureDone-kept k (inl c) = inl (rw (d.features k) (or_else_left _ _ c))
    FeatureDone-kept k (inr (w, i, r, b, e)) = inr (w, inr i, r, b, e)

    pub LabelDone-kept :
        (k : String)
        → LabelDone x fp lp s.db s.validated k
        → LabelDone x fp lp left ((now, j) ∷ s.validated) k
    LabelDone-kept k (inl c) = inl (rw (d.labels k) (or_else_left _ _ c))
    LabelDone-kept k (inr (w, i, r, b, e)) = inr (w, inr i, r, b, e)

    pub FeatureDone-new :
        (k : String) → FeatureIn x fp lp j k → FeatureDone x fp lp left ((now, j) ∷ s.validated) k
    unfolding validate_features transform_features curated_feature
    FeatureDone-new k (r, i, e) = elim (validate_kept fp j.features (features_schema now) r i) [
      | inr b ↦ inr ((now, j), inl refl, r, b, e)
      | inl v ↦ inl (
          rw (d.features k) (
            subst
              (λ (key : String).
                is_some (
                  or_else (x.curated_features.upsert.lookup s.db.curated_features k) (
                    first x.curated_features.upsert.key key (
                      map (curated_feature x run_id)
                        (transform_features x (validate_features fp now j.features).0))))
                ≡ true)
              e
              (found x.curated_features.upsert (λ f. f.event_id) (curated_feature x run_id)
                (λ f. x.curated_features_key (curated_feature x run_id f))
                (x.curated_features.upsert.lookup s.db.curated_features k) r _
                ((x.In-sort_features r _).1 v))))
    ]

    pub LabelDone-new :
        (k : String) → LabelIn x fp lp j k → LabelDone x fp lp left ((now, j) ∷ s.validated) k
    unfolding validate_labels transform_labels curated_label
    LabelDone-new k (r, i, e) = elim (validate_kept lp j.labels (labels_schema now) r i) [
      | inr b ↦ inr ((now, j), inl refl, r, b, e)
      | inl v ↦ inl (
          rw (d.labels k) (
            subst
              (λ (key : String).
                is_some (
                  or_else (x.curated_labels.upsert.lookup s.db.curated_labels k) (
                    first x.curated_labels.upsert.key key (
                      map (curated_label run_id)
                        (transform_labels x (validate_labels lp now j.labels).0))))
                ≡ true)
              e
              (found x.curated_labels.upsert (λ f. f.event_id) (curated_label run_id)
                (λ f. x.curated_labels_key (curated_label run_id f))
                (x.curated_labels.upsert.lookup s.db.curated_labels k) r _
                ((x.In-sort_labels r _).1 v))))
    ]

  -- The curation committed.
  pub committed-IsComplete :
      (s : S x fp lp) (now : ℕ) (j : Job R) (run_id : String) (db' : Database LF LL CF CL TR W)
      → In j s.jobs
      → Curated x
          (transform_features x (validate_features fp now j.features).0)
          (transform_labels x (validate_labels lp now j.labels).0)
          run_id
          j.bounds.upper_bound
          s.db
          db'
      → IsComplete x fp lp s
      → IsComplete x fp lp (record s { db = db'; validated = (now, j) ∷ s.validated })
  committed-IsComplete s now j run_id db' i d c =
      subst
        (λ (e : Database LF LL CF CL TR W).
          IsComplete x fp lp (record s { db = e; validated = (now, j) ∷ s.validated }))
        (sym d.only)
        (record {
          features =
              Kept-advance x.landing_features (λ r. r.ingested_at) s.db.landing_features
                (FeatureDone x fp lp s.db s.validated) _ (FeatureIn x fp lp j) _ _ u
                (λ k h. FeatureDone-kept s now j run_id db' d k h)
                (λ k h. FeatureDone-new s now j run_id db' d k h)
                (advanced_cover s.db.watermarks u o.late features_pipeline) c.features o.features;
          labels =
              Kept-advance x.landing_labels (λ r. r.ingested_at) s.db.landing_labels
                (LabelDone x fp lp s.db s.validated) _ (LabelIn x fp lp j) _ _ u
                (λ k h. LabelDone-kept s now j run_id db' d k h)
                (λ k h. LabelDone-new s now j run_id db' d k h)
                (advanced_cover s.db.watermarks u o.late labels_pipeline) c.labels o.labels;
          behind =
              All-map _ _ s.bounds
                (λ b h. record {
                  features =
                      le_trans h.features (advanced_le s.db.watermarks u o.late features_pipeline);
                  labels = le_trans h.labels (advanced_le s.db.watermarks u o.late labels_pipeline);
                  late = h.late;
                })
                c.behind;
          owes =
              All-map _ _ s.jobs
                (λ k h. record {
                  features =
                      Due-later x.landing_features (λ r. r.ingested_at) s.db.landing_features _ _ _
                        (FeatureIn x fp lp k)
                        (advanced_le s.db.watermarks u o.late features_pipeline) h.features;
                  labels =
                      Due-later x.landing_labels (λ r. r.ingested_at) s.db.landing_labels _ _ _
                        (LabelIn x fp lp k) (advanced_le s.db.watermarks u o.late labels_pipeline)
                        h.labels;
                  late = h.late;
                })
                c.owes;
        })
    where
      u : ℕ
      u = j.bounds.upper_bound

      o : Owes x fp lp s.db j
      o = In-All _ j s.jobs c.owes i

  pub curate_cases :
      (faults : Faults) (now : ℕ) (run_id : String) (j : Job R) (db : Database LF LL CF CL TR W)
      → ((counts : ℕ × ℕ) × (db' : Database LF LL CF CL TR W) × (curate x fp lp faults now run_id j
              db
            ≡ (ok counts, db'))
          × Curated x
              (transform_features x (validate_features fp now j.features).0)
              (transform_labels x (validate_labels lp now j.labels).0)
              run_id
              j.bounds.upper_bound
              db
              db')
        ⊎ ((e : Exc) × (curate x fp lp faults now run_id j db ≡ (raise e, db)))
  unfolding curate
  curate_cases faults now run_id j db =
      update_curated_tables_and_advance_watermarks-IsAtomic x faults
        (transform_features x (validate_features fp now j.features).0)
        (transform_labels x (validate_labels lp now j.labels).0) run_id j.bounds.upper_bound db

  pub commit-IsComplete :
      (s : S x fp lp) (faults : Faults) (now : ℕ) (run_id : String) (j : Job R)
      → In j s.jobs
      → IsComplete x fp lp s
      → IsComplete x fp lp (record s {
        db = (curate x fp lp faults now run_id j s.db).1;
        validated = (now, j) ∷ s.validated;
      })
  commit-IsComplete s faults now run_id j i c = elim (curate_cases faults now run_id j s.db) [
    | inl (counts, db', e, d) ↦ rw e (committed-IsComplete s now j run_id db' i d c)
    | inr (exc, e) ↦ rw e (failed-IsComplete s (now, j) c)
  ]
