-- ===== src/Tests/Ingestor.antt =====
-- The consume loop on sample batches.
use agentic_ml_engineering_l.Base.{
  ℕ, zero, suc, ◌≡◌, refl, map, length, String, Option, none, some, List, [], ◌∷◌, database_error,
  Result,
}
use agentic_ml_engineering_l.Ingestor.{Env, World, feature, WriteErrors, Message, Loaded}
use agentic_ml_engineering_l.Ingestor.Write.{Written, write_with_retry}
use agentic_ml_engineering_l.Ingestor.Write.Retry.{Outcome, write_with_retry_total}
use agentic_ml_engineering_l.Ingestor.Batch.{process_batch, row}
use agentic_ml_engineering_l.Ingestor.Batch.Promise.{Promise, process_batch-Promise}
use agentic_ml_engineering_l.Ingestor.Batch.Grows.{IsReported}
use agentic_ml_engineering_l.Tests.Samples.{
  settings, Landing, libraries, feature_message, label_message, garbled_message, empty_world,
  no_errors, calm, some_features,
}

-- The connection drops during the commit of every transaction but the third.
abbrev commit_fails : ℕ → WriteErrors
commit_fails zero = record no_errors { commit = some (database_error "connection lost") }
commit_fails (suc zero) = record no_errors { commit = some (database_error "connection lost") }
commit_fails (suc (suc attempt)) = no_errors

abbrev flaky : Env
flaky = record calm { write_errors = commit_fails }

write_with_retry_total_example :
    (r : Written Landing) × (write_with_retry libraries settings flaky
        (row (feature some_features) 0 41 ∷ [])
        []
        empty_world
      ≡ some r)
    × Outcome libraries settings flaky (row (feature some_features) 0 41 ∷ []) [] empty_world r
write_with_retry_total_example =
    write_with_retry_total libraries settings flaky (row (feature some_features) 0 41 ∷ []) []
      empty_world

abbrev batch : List (Message (Loaded ℕ))
batch = feature_message ∷ garbled_message ∷ label_message ∷ []

process_batch-Promise_example :
    (a : Result (Unit {0})) × (v : World Landing) × (process_batch libraries settings flaky batch
        empty_world
      ≡ some (a, v))
    × Promise libraries settings flaky batch empty_world v
    × IsReported v
process_batch-Promise_example = process_batch-Promise libraries settings flaky batch empty_world tt

-- The delivery of every dead letter fails, and the broker accepts the offsets.
abbrev lossy : Env
lossy = record calm { delivery_error = λ letters letter. some "topic deleted" }

abbrev seen : Option (Result (Unit {0}) × World Landing) → List ℕ × List (Option String)
seen none = ([], [])
seen (some (r, w)) = (map (λ offsets. length offsets) w.commits, map (λ report. report.1) w.reports)

process_batch-lossy :
    seen (process_batch libraries settings lossy (garbled_message ∷ []) empty_world)
    ≡ (1 ∷ [], some "topic deleted" ∷ [])
unfolding process_batch agentic_ml_engineering_l.Ingestor.Validate.model_validate
    agentic_ml_engineering_l.Ingestor.Write.write_batch
process_batch-lossy = refl
