-- ===== src/Tests/Loop.antt =====
-- The consume loop, its polling and its probes on sample rounds.
use agentic_ml_engineering_l.Base.{
  ℕ, true, false, List, [], ◌∷◌, ◌≡◌, refl, some, none, Exc, ok, raise, Result, inl, inr, arith,
  Option, kafka_exception,
}
use agentic_ml_engineering_l.Base.Int.{pos}
use agentic_ml_engineering_l.Schemas.Values.{integer, string, object, field, end}
use agentic_ml_engineering_l.Ingestor.{World, Message, Loaded, loaded}
use agentic_ml_engineering_l.Ingestor.Batch.{process_batch}
use agentic_ml_engineering_l.Ingestor.Batch.Poison.{process_batch-poisoned}
use agentic_ml_engineering_l.Ingestor.Batch.Redelivery.{
  Effect, process_batch-Effect, process_batch_twice,
}
use agentic_ml_engineering_l.Ingestor.Poll.{
  Turn, nothing, arrived, error, poll_batch, Fits, poll_batch-Fits,
}
use agentic_ml_engineering_l.Ingestor.Loop.{Round, Loop, run}
use agentic_ml_engineering_l.Ingestor.Loop.Acknowledged.{Acknowledged, run-Acknowledged}
use agentic_ml_engineering_l.Ingestor.Probes.{ProbeState}
use agentic_ml_engineering_l.Tests.Samples.{
  message, settings, Landing, libraries, feature_message, label_message, garbled_message,
  poison_message, empty_world, calm,
}

abbrev poisoned : List (Message (Loaded ℕ))
poisoned = feature_message ∷ poison_message ∷ []

process_batch-poisoned_example :
    (e : Exc) × (v : World Landing) × (process_batch libraries settings calm poisoned empty_world
      ≡ some (raise e, v))
    × (v.commits ≡ [])
    × (v.tables ≡ empty_world.tables)
process_batch-poisoned_example =
    process_batch-poisoned libraries settings calm poisoned poison_message (inr (inl refl))
      (record {
        topic = "higgs.features.v1";
        partition = 0;
        offset = 43;
        raw = _;
        exc = _;
        has_topic = refl;
        has_partition = refl;
        has_offset = refl;
        has_value = refl;
        raises = refl;
      })
      empty_world

abbrev batch : List (Message (Loaded ℕ))
batch = feature_message ∷ garbled_message ∷ label_message ∷ []

-- A label event, written out.
abbrev written_label : Message (Loaded ℕ)
written_label = message "higgs.labels.v1" 8 (
    loaded (
      object (
        field "event_id" (string "label-1") (
          field "entity_id" (string "higgs-1") (
            field "target" (integer (pos 1))
              (field "label_timestamp" (string "2026-07-01T00:00:10Z") end))))))

abbrev small : List (Message (Loaded ℕ))
small = garbled_message ∷ written_label ∷ written_label ∷ []

abbrev world_after : Option (Result (Unit {0}) × World Landing) → World Landing
world_after none = empty_world
world_after (some (r, w)) = w

unfoldable after_batch : World Landing
unfolding process_batch
after_batch = world_after (process_batch libraries settings calm small empty_world)

unfoldable after_again : World Landing
unfolding process_batch after_batch
after_again = world_after (process_batch libraries settings calm small after_batch)

returns : process_batch libraries settings calm small empty_world ≡ some (ok tt, after_batch)
unfolding process_batch after_batch agentic_ml_engineering_l.Ingestor.Validate.model_validate
    agentic_ml_engineering_l.Ingestor.Write.write_batch
returns = refl

returns_again : process_batch libraries settings calm small after_batch ≡ some (ok tt, after_again)
unfolding process_batch after_batch after_again
    agentic_ml_engineering_l.Ingestor.Validate.model_validate
    agentic_ml_engineering_l.Ingestor.Write.write_batch
returns_again = refl

process_batch-Effect_example : Effect libraries settings calm small empty_world after_batch
process_batch-Effect_example =
    process_batch-Effect libraries settings calm small empty_world after_batch returns

process_batch_twice_example :
    (libraries.landing.lookup after_again.tables.features "label-1"
      ≡ libraries.landing.lookup after_batch.tables.features "label-1")
    × (libraries.landing.lookup after_again.tables.labels "label-1"
        ≡ libraries.landing.lookup after_batch.tables.labels "label-1")
process_batch_twice_example =
    process_batch_twice libraries settings calm calm small empty_world after_batch after_again
      returns returns_again "label-1"

abbrev turns : List (Turn (Loaded ℕ))
turns =
    record { time = 0; stopping = false; polled = arrived feature_message }
    ∷ record { time = 500; stopping = false; polled = nothing }
    ∷ record { time = 600; stopping = false; polled = error "broker down" }
    ∷ record { time = 2100; stopping = false; polled = arrived label_message }
    ∷ []

poll_batch-Fits_example :
    (result : List (Message (Loaded ℕ))) × (poll_batch settings 0 turns ≡ some result)
    × Fits settings.batch_size settings.batch_timeout [] turns result
poll_batch-Fits_example =
    poll_batch-Fits settings 0 turns (inr (inr (inr (inl (inr (omega arith))))))

abbrev stuck : ProbeState
stuck = record {
  loop_error = none;
  thread_alive = some true;
  stop_set = false;
  last_progress_at = 0;
  assigned = true;
  last_commit_error = none;
}

-- A batch, an idle turn, a batch whose commit is rejected, and one with invalid UTF-8.
abbrev rounds : List (Round (Loaded ℕ))
rounds =
    record { polled = ok batch; env = calm; now = 10 }
    ∷ record { polled = ok []; env = calm; now = 20 }
    ∷ record {
      polled = ok batch;
      env = record calm { commit_error = some (kafka_exception "rebalance") };
      now = 30;
    }
    ∷ record { polled = ok poisoned; env = calm; now = 40 }
    ∷ []

abbrev fresh_loop : Loop Landing
fresh_loop = record { world = empty_world; loop_error = none; last_progress_at = 0; closed = false }

run-Acknowledged_example :
    (l' : Loop Landing) × (run libraries settings rounds fresh_loop ≡ some l')
    × (l'.closed ≡ true)
    × Acknowledged libraries settings rounds empty_world l'.world
run-Acknowledged_example = run-Acknowledged libraries settings rounds fresh_loop
