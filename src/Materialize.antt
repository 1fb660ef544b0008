-- ===== src/Materialize.antt =====
-- ml/feature_repo/scripts/materialize.py: the chunked backfill of the online store, which resumes from
-- the intervals in Feast's registry.
pub mod Gapless
use agentic_ml_engineering_l.Base.{
  ℕ, suc, ◌+◌, min, max, Bool, true, false, Option, none, some, List, [], ◌∷◌, ◌++◌, leb,
  if◌then◌else◌, Exc, Result, ok, raise,
}
use agentic_ml_engineering_l.Pipeline.Windows.{materialize_windows, Ascending}

-- The SQL on curated.higgs_features_flat: the least and the greatest event_timestamp, none for an empty
-- table, and every chunk_rows-th event_timestamp of a range, in ascending order.
pub record Source : Type 0 where
  pub bounds : Option (ℕ × ℕ)
  pub chunk_boundaries : ℕ → ℕ → ℕ → List ℕ
  pub chunk_boundaries-Ascending :
      (start end chunk_rows : ℕ) → Ascending 0 (chunk_boundaries start end chunk_rows)

-- The registry's materialization_intervals, oldest first.
abbrev pub Registry : Type 0
Registry = List (ℕ × ℕ)

-- max((hi for _, hi in intervals), default=None)
abbrev pub max_of : Option ℕ → ℕ → ℕ
max_of none hi = hi
max_of (some t) hi = max t hi

unfoldable pub latest : Option ℕ → Registry → Option ℕ
latest t [] = t
latest t ((lo, hi) ∷ intervals) = latest (some (max_of t hi)) intervals

unfoldable pub resume_point : Registry → Option ℕ
unfolding latest
resume_point intervals = latest none intervals

-- `resume_point(store) or _as_utc(src_min)`: a datetime is true.
abbrev pub resumed : Option ℕ → ℕ → ℕ
resumed none src_min = src_min
resumed (some t) src_min = t

module _ (source : Source) where
  plan_between : ℕ → ℕ → ℕ → List (ℕ × ℕ)
  unfolding materialize_windows
  plan_between start end chunk_rows =
      if leb end start
      then []
      else materialize_windows start end (source.chunk_boundaries start end chunk_rows)

  plan_from : Option (ℕ × ℕ) → Registry → ℕ → ℕ → List (ℕ × ℕ)
  unfolding plan_between resume_point
  plan_from none intervals end chunk_rows = []
  plan_from (some (src_min, src_max)) intervals end chunk_rows =
      plan_between (resumed (resume_point intervals) src_min) (min end src_max) chunk_rows

  unfoldable pub plan : Registry → ℕ → ℕ → List (ℕ × ℕ)
  unfolding plan_from
  plan intervals end chunk_rows = plan_from source.bounds intervals end chunk_rows

-- `store.materialize` of each window: the n-th call may raise, and one that returns is recorded in the
-- registry. The result counts the windows.
unfoldable pub materialize_all :
    (ℕ → Option Exc) → ℕ → List (ℕ × ℕ) → Registry → Result ℕ × Registry
materialize_all errors n [] intervals = (ok n, intervals)
materialize_all errors n (w ∷ windows) intervals = elim (errors n) [
  | some e ↦ (raise e, intervals)
  | none ↦ materialize_all errors (suc n) windows (intervals ++ w ∷ [])
]

unfoldable pub materialize_chunked :
    Source → (ℕ → Option Exc) → ℕ → ℕ → Registry → Result ℕ × Registry
unfolding plan materialize_all
materialize_chunked source errors end chunk_rows intervals =
    materialize_all errors 0 (plan source intervals end chunk_rows) intervals
