-- ===== src/Pipeline/Runs/Land.antt =====
-- The steps that land a row and that extract a window keep the invariant of the runs.
use agentic_ml_engineering_l.Base.{◌<◌, All, All-map, All-map2, In-map, sym, ◌∙◌}
use agentic_ml_engineering_l.Db.Models.{HiggsFeatureEvent, HiggsLabelEvent}
use agentic_ml_engineering_l.Pipeline.{Libraries, Database, FeatureRecord, LabelRecord}
use agentic_ml_engineering_l.Pipeline.Validation.{Pandera}
use agentic_ml_engineering_l.Pipeline.Extract.{WatermarkBounds, feature_record, label_record}
use agentic_ml_engineering_l.Pipeline.Runs.{Job, features_watermark, labels_watermark, extract}
use agentic_ml_engineering_l.Pipeline.Runs.Stream.{
  landed, Kept-landed, Due-landed, Due-map, Due-select,
}
use agentic_ml_engineering_l.Pipeline.Runs.Invariant.{
  S, FeatureDone, LabelDone, FeatureIn, LabelIn, Behind, Owes, IsComplete,
}

module _ {R LF LL CF CL TR W : Type 0} (x : Libraries R LF LL CF CL TR W)
    (fp : Pandera (FeatureRecord R)) (lp : Pandera LabelRecord) where
  pub land_feature-IsComplete :
      (s : S x fp lp) (r : HiggsFeatureEvent R)
      → features_watermark x fp lp s.db < r.ingested_at
      → All (λ (j : Job R). j.bounds.upper_bound < r.ingested_at) s.jobs
      → IsComplete x fp lp s
      → IsComplete x fp lp (record s {
        db = record s.db {
          landing_features = landed x.landing_features (λ e. e.ingested_at) r s.db.landing_features;
        };
      })
  land_feature-IsComplete s r late all c = record {
    features =
        Kept-landed x.landing_features (λ e. e.ingested_at) r s.db.landing_features
          (FeatureDone x fp lp s.db s.validated) _ late c.features;
    labels = c.labels;
    behind =
        All-map _ _ s.bounds
          (λ b h. record { features = h.features; labels = h.labels; late = h.late }) c.behind;
    owes =
        All-map2 _ _ _ s.jobs
          (λ j l o. record {
            features =
                Due-landed x.landing_features (λ e. e.ingested_at) r s.db.landing_features _ _
                  (FeatureIn x fp lp j) l o.features;
            labels = o.labels;
            late = o.late;
          })
          all c.owes;
  }

  pub land_label-IsComplete :
      (s : S x fp lp) (r : HiggsLabelEvent)
      → labels_watermark x fp lp s.db < r.ingested_at
      → All (λ (j : Job R). j.bounds.upper_bound < r.ingested_at) s.jobs
      → IsComplete x fp lp s
      → IsComplete x fp lp (record s {
        db = record s.db {
          landing_labels = landed x.landing_labels (λ e. e.ingested_at) r s.db.landing_labels;
        };
      })
  land_label-IsComplete s r late all c = record {
    features = c.features;
    labels =
        Kept-landed x.landing_labels (λ e. e.ingested_at) r s.db.landing_labels
          (LabelDone x fp lp s.db s.validated) _ late c.labels;
    behind =
        All-map _ _ s.bounds
          (λ b h. record { features = h.features; labels = h.labels; late = h.late }) c.behind;
    owes =
        All-map2 _ _ _ s.jobs
          (λ j l o. record {
            features = o.features;
            labels =
                Due-landed x.landing_labels (λ e. e.ingested_at) r s.db.landing_labels _ _
                  (LabelIn x fp lp j) l o.labels;
            late = o.late;
          })
          all c.owes;
  }

  pub stage-Owes :
      (db : Database LF LL CF CL TR W) (b : WatermarkBounds)
      → Behind x fp lp db b
      → Owes x fp lp db (extract x fp lp db b)
  unfolding extract feature_record label_record
  stage-Owes db b h = record {
    features =
        Due-map x.landing_features (λ r. r.ingested_at) db.landing_features _ _ _ _
          (λ k (r, i, e). (
            feature_record x r,
            In-map (feature_record x) r _ i,
            sym (x.landing_features_key r) ∙ e,
          ))
          (Due-select x.landing_features (λ r. r.ingested_at) db.landing_features
            b.features_watermark _ b.upper_bound h.features);
    labels =
        Due-map x.landing_labels (λ r. r.ingested_at) db.landing_labels _ _ _ _
          (λ k (r, i, e).
            (label_record x r, In-map (label_record x) r _ i, sym (x.landing_labels_key r) ∙ e))
          (Due-select x.landing_labels (λ r. r.ingested_at) db.landing_labels b.labels_watermark _
            b.upper_bound h.labels);
    late = h.late;
  }
