-- ===== src/Pipeline/Runs/Complete.antt =====
-- watermark.py and higgs_pipeline_tasks.py: the watermark is never "ahead of what was actually durably
-- curated", with concurrent and retried runs.
use agentic_ml_engineering_l.Base.{ℕ, String, none, [], All, In-All, ◌≡◌, sym, subst}
use native.Mathlib.Nat.{le_refl}
use agentic_ml_engineering_l.Pipeline.{Libraries, FeatureRecord, LabelRecord}
use agentic_ml_engineering_l.Pipeline.Validation.{Pandera}
use agentic_ml_engineering_l.Pipeline.Extract.{determine_high_watermark}
use agentic_ml_engineering_l.Pipeline.Runs.{
  Step, Reach, features_watermark, labels_watermark, land_feature, land_label, determine, stage,
  commit, here, next,
}
use agentic_ml_engineering_l.Pipeline.Runs.Stream.{Kept}
use agentic_ml_engineering_l.Pipeline.Runs.Invariant.{
  S, FeatureDone, LabelDone, Behind, Owes, IsComplete,
}
use agentic_ml_engineering_l.Pipeline.Runs.Land.{
  land_feature-IsComplete, land_label-IsComplete, stage-Owes,
}
use agentic_ml_engineering_l.Pipeline.Runs.Commit.{commit-IsComplete}

module _ {R LF LL CF CL TR W : Type 0} (x : Libraries R LF LL CF CL TR W)
    (fp : Pandera (FeatureRecord R)) (lp : Pandera LabelRecord) where
  Step-IsComplete :
      {maximum : ℕ} {s t : S x fp lp}
      → Step x fp lp maximum s t
      → IsComplete x fp lp s
      → IsComplete x fp lp t
  Step-IsComplete {s} (land_feature r (late, all)) c =
      land_feature-IsComplete x fp lp s r late all c
  Step-IsComplete {s} (land_label r (late, all)) c = land_label-IsComplete x fp lp s r late all c
  Step-IsComplete {s} (determine u late) c = record {
    features = c.features;
    labels = c.labels;
    behind = (
      unfold determine_high_watermark in
          record { features = le_refl _; labels = le_refl _; late = late },
      c.behind,
    );
    owes = c.owes;
  }
  Step-IsComplete {s} (stage b i) c = record {
    features = c.features;
    labels = c.labels;
    behind = c.behind;
    owes = (stage-Owes x fp lp s.db b (In-All _ b s.bounds c.behind i), c.owes);
  }
  Step-IsComplete {s} (commit faults now run_id j i gate) c =
      commit-IsComplete x fp lp s faults now run_id j i c

  Reach-IsComplete :
      {maximum : ℕ} {s t : S x fp lp}
      → Reach x fp lp maximum s t
      → IsComplete x fp lp s
      → IsComplete x fp lp t
  Reach-IsComplete here c = c
  Reach-IsComplete (next r st) c = Step-IsComplete st (Reach-IsComplete r c)

  -- Before the first row lands.
  pub record IsFresh (s : S x fp lp) : Type 0 where
    pub no_features : (k : String) → x.landing_features.upsert.lookup s.db.landing_features k ≡ none
    pub no_labels : (k : String) → x.landing_labels.upsert.lookup s.db.landing_labels k ≡ none
    pub no_bounds : s.bounds ≡ []
    pub no_jobs : s.jobs ≡ []

  -- Every landed row up to its pipeline's watermark is curated, or a validation has reported it.
  pub record IsSettled (s : S x fp lp) : Type 0 where
    pub features :
        Kept x.landing_features
          (λ r. r.ingested_at)
          s.db.landing_features
          (FeatureDone x fp lp s.db s.validated)
          (features_watermark x fp lp s.db)
    pub labels :
        Kept x.landing_labels
          (λ r. r.ingested_at)
          s.db.landing_labels
          (LabelDone x fp lp s.db s.validated)
          (labels_watermark x fp lp s.db)

  IsFresh-IsComplete : (s : S x fp lp) → IsFresh s → IsComplete x fp lp s
  IsFresh-IsComplete s f = record {
    features = λ k r h le. absurd (let e = f.no_features k in cc);
    labels = λ k r h le. absurd (let e = f.no_labels k in cc);
    behind = subst (All (Behind x fp lp s.db)) (sym f.no_bounds) tt;
    owes = subst (All (Owes x fp lp s.db)) (sym f.no_jobs) tt;
  }

  -- From a fresh system, whichever runs go on at once, fail or are retried, and where each row lands
  -- with an ingested_at after its pipeline's watermark and after every window that has been extracted:
  -- every landed feature or label event up to the watermark of its pipeline is in the curated table, or
  -- a failure case of a run's validation names it.
  pub Reach-IsSettled :
      {maximum : ℕ} {s t : S x fp lp} → Reach x fp lp maximum s t → IsFresh s → IsSettled t
  Reach-IsSettled {s} r f =
      let c = Reach-IsComplete r (IsFresh-IsComplete s f) in
      record { features = c.features; labels = c.labels }
