-- ===== src/Pipeline/RunRecord.antt =====
-- higgs_pipeline.py: the row of a run in pipeline_runs, written by the failure callback and by the last
-- task. A time is a number of microseconds.
use Prim.Native.String.{◌++◌ as append}
use agentic_ml_engineering_l.Base.{
  ℕ, String, Bool, true, not, ◌&&◌, Option, none, some, [], ◌∷◌, ◌==◌, ==_refl, ◌++◌, take, drop,
  if◌then◌else◌, ◌≡◌, refl, ap, ◌∙◌, inl, inr, Bool-cases,
}
use agentic_ml_engineering_l.Base.Dict.{Dict, get, put, get-put}
use agentic_ml_engineering_l.Base.Equality.{string_eq}

-- The value of a column.
pub data Value : Type 0 where
  text : String → Value
  number : ℕ → Value
  time : ℕ → Value
  null : Value

abbrev pub Row : Type 0
Row = Dict String Value

-- The columns of a run that fails: ti.task_id, str(exception), and text[:n].
pub record Failure : Type 0 where
  pub dag_id : String
  pub task_id : String
  pub exception : Option String
  pub started_at : ℕ
  pub finished_at : ℕ

-- What the tasks of a run return.
pub record Summary : Type 0 where
  pub dag_id : String
  pub features_watermark : ℕ
  pub labels_watermark : ℕ
  pub upper_bound : ℕ
  pub features_count : ℕ
  pub labels_count : ℕ
  pub invalid_features_count : ℕ
  pub invalid_labels_count : ℕ
  pub curated_features_upserted : ℕ
  pub curated_labels_upserted : ℕ
  pub training_records_new : ℕ
  pub bronze_features_key : String
  pub bronze_labels_key : String
  pub silver_features_key : String
  pub silver_labels_key : String
  pub gold_training_key : Option String
  pub validation_report_key : String
  pub started_at : ℕ
  pub finished_at : ℕ

abbrev or_null : Option String → Value
or_null none = null
or_null (some t) = text t

-- ON CONFLICT DO UPDATE SET of the given columns.
unfoldable pub update_columns : Row → Row → Row
unfolding put
update_columns [] row = row
update_columns ((k, v) ∷ fields) row = update_columns fields (put k v row)

-- The row of a run, where there is none or one before; `fields` are the columns but run_id.
unfoldable pub merged : String → Row → Option Row → Row
unfolding update_columns
merged run_id fields none = ("run_id", text run_id) ∷ fields
merged run_id fields (some row) = update_columns fields row

-- The table by run_id.
unfoldable pub record_pipeline_run : String → Row → Dict String Row → Dict String Row
unfolding get put merged
record_pipeline_run run_id fields t = put run_id (merged run_id fields (get run_id t)) t

module _ (prefix : ℕ → String → String) where
  abbrev or_unknown : Option String → String
  or_unknown none = "unknown error"
  or_unknown (some t) = t

  abbrev pub error_message : Failure → Value
  error_message f = text (prefix 2000 (append f.task_id (append ": " (or_unknown f.exception))))

  unfoldable pub failure_columns : Failure → Row
  failure_columns f =
      ("dag_id", text f.dag_id)
      ∷ ("status", text "failed")
      ∷ ("error_message", error_message f)
      ∷ ("started_at", time f.started_at)
      ∷ ("finished_at", time f.finished_at)
      ∷ []

  -- _on_failure
  unfoldable pub on_failure : String → Failure → Dict String Row → Dict String Row
  unfolding record_pipeline_run failure_columns
  on_failure run_id f t = record_pipeline_run run_id (failure_columns f) t

unfoldable pub success_columns : Summary → Row
success_columns s =
    ("dag_id", text s.dag_id)
    ∷ ("status", text "success")
    ∷ ("features_watermark_before", time s.features_watermark)
    ∷ ("features_watermark_after", time s.upper_bound)
    ∷ ("labels_watermark_before", time s.labels_watermark)
    ∷ ("labels_watermark_after", time s.upper_bound)
    ∷ ("extracted_features", number s.features_count)
    ∷ ("extracted_labels", number s.labels_count)
    ∷ ("invalid_features", number s.invalid_features_count)
    ∷ ("invalid_labels", number s.invalid_labels_count)
    ∷ ("curated_features_upserted", number s.curated_features_upserted)
    ∷ ("curated_labels_upserted", number s.curated_labels_upserted)
    ∷ ("training_records_new", number s.training_records_new)
    ∷ ("bronze_features_key", text s.bronze_features_key)
    ∷ ("bronze_labels_key", text s.bronze_labels_key)
    ∷ ("silver_features_key", text s.silver_features_key)
    ∷ ("silver_labels_key", text s.silver_labels_key)
    ∷ ("gold_training_key", or_null s.gold_training_key)
    ∷ ("validation_report_key", text s.validation_report_key)
    ∷ ("started_at", time s.started_at)
    ∷ ("finished_at", time s.finished_at)
    ∷ []

-- emit_pipeline_metadata_task; the removal of the staging directory is left out.
unfoldable pub emit_pipeline_metadata : String → Summary → Dict String Row → Dict String Row
unfolding record_pipeline_run success_columns
emit_pipeline_metadata run_id s t = record_pipeline_run run_id (success_columns s) t

if_same : {A : Type 0} (k : String) (a : A) (o : Option A) → (if k == k then some a else o) ≡ some a
if_same k a o = rw (==_refl k) refl

-- The columns do not name the key.
abbrev lacks : String → Row → Bool
lacks k [] = true
lacks k ((j, v) ∷ fields) = not (j == k) && lacks k fields

update_columns-lacks :
    (k : String) (fields row : Row)
    → lacks k fields ≡ true
    → get k (update_columns fields row) ≡ get k row
unfolding update_columns
update_columns-lacks k [] row h = refl
update_columns-lacks k ((j, v) ∷ fields) row h = elim (Bool-cases (j == k)) [
  | inl e ↦ absurd (let q = rw e at h in cc)
  | inr e ↦
      update_columns-lacks k fields (put j v row) (let q = rw e at h in q)
      ∙ get-put j k v row
      ∙ rw e refl
]

-- The last value given to a column stands.
update_columns-last :
    (k : String) (v : Value) (before after row : Row)
    → lacks k after ≡ true
    → get k (update_columns (before ++ (k, v) ∷ after) row) ≡ some v
unfolding update_columns
update_columns-last k v [] after row h =
    update_columns-lacks k after (put k v row) h ∙ get-put k k v row ∙ if_same k v (get k row)
update_columns-last k v ((j, w) ∷ before) after row h =
    update_columns-last k v before after (put j w row) h

get-record_pipeline_run :
    (run_id : String) (fields : Row) (t : Dict String Row)
    → get run_id (record_pipeline_run run_id fields t) ≡ some (merged run_id fields (get run_id t))
unfolding record_pipeline_run
get-record_pipeline_run run_id fields t =
    get-put run_id run_id (merged run_id fields (get run_id t)) t
    ∙ if_same run_id (merged run_id fields (get run_id t)) (get run_id t)

module _ (prefix : ℕ → String → String) (run_id : String) (f : Failure) (s : Summary) where
  failed_message :
      (o : Option Row)
      → get "error_message" (merged run_id (failure_columns prefix f) o)
        ≡ some (error_message prefix f)
  unfolding merged failure_columns update_columns get
  failed_message none = refl
  failed_message (some row) =
      update_columns-last "error_message" (error_message prefix f)
        (take 2 (failure_columns prefix f)) (drop 3 (failure_columns prefix f)) row refl

  succeeded :
      (row : Row)
      → (get "status" (update_columns (success_columns s) row) ≡ some (text "success"))
        × (get "error_message" (update_columns (success_columns s) row) ≡ get "error_message" row)
  unfolding success_columns
  succeeded row = (
    update_columns-last "status" (text "success") (take 1 (success_columns s))
        (drop 2 (success_columns s)) row refl,
    update_columns-lacks "error_message" (success_columns s) row refl,
  )

  -- Whatever is recorded of a run before: after _on_failure and then emit_pipeline_metadata_task for
  -- the same run_id, the run has a row with the status success, and its error_message is still that
  -- of the failure.
  pub emit_pipeline_metadata-on_failure :
      (t : Dict String Row)
      → (row : Row) × (get run_id (emit_pipeline_metadata run_id s (on_failure prefix run_id f t))
          ≡ some row)
        × (get "status" row ≡ some (text "success"))
        × (get "error_message" row ≡ some (error_message prefix f))
  unfolding emit_pipeline_metadata on_failure merged
  emit_pipeline_metadata-on_failure t =
      let failed = merged run_id (failure_columns prefix f) (get run_id t) in
      let (status, message) = succeeded failed in
      (
        update_columns (success_columns s) failed,
        get-record_pipeline_run run_id (success_columns s)
              (record_pipeline_run run_id (failure_columns prefix f) t)
            ∙ ap (λ o. some (merged run_id (success_columns s) o))
                (get-record_pipeline_run run_id (failure_columns prefix f) t),
        status,
        message ∙ failed_message (get run_id t),
      )
