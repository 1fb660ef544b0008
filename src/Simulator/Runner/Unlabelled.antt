-- ===== src/Simulator/Runner/Unlabelled.antt =====
-- simulator.py, the try block of `_loop`: a duplicate that cannot be sent takes the label of its row along.
use agentic_ml_engineering_l.Base.{
  ℕ, suc, String, true, false, none, some, [], ◌∷◌, ◌++◌, ◌≡◌, refl, ok, raise, kafka_exception,
}
use agentic_ml_engineering_l.Schemas.Values.{Pydantic}
use agentic_ml_engineering_l.Schemas.Features.{features_match_higgs_schema}
use agentic_ml_engineering_l.Simulator.Dataset.{HiggsRow, Parsing}
use agentic_ml_engineering_l.Simulator.Runner.{
  Sent, Settings, World, Kafka, Float, counted, produced, produce, after_produce, publish,
  after_publish, send, again, send_with_duplicate, on_publish_error,
}
use agentic_ml_engineering_l.Simulator.Runner.Events.{Draws, feature_message, publish_feature}
use agentic_ml_engineering_l.Simulator.Runner.Loop.{
  Runner, then_label, publish_row, after_error, next, turn_row, read_row,
}

module _ {R : Type 0} (kafka : Kafka) where
  send-lost :
      (m : Sent R) (w : World R) (t : String)
      → kafka.produce_error w.calls ≡ some (kafka_exception t)
      → send kafka m w ≡ (raise (kafka_exception t), record w { calls = suc w.calls })
  unfolding send publish after_publish after_produce produce produced
  send-lost m w t h = rw h refl

  send-passed :
      (m : Sent R) (w : World R)
      → kafka.produce_error w.calls ≡ none
      → send kafka m w ≡ (
        ok tt,
        record w { log = w.log ++ m ∷ []; calls = suc w.calls; counters = counted m w.counters },
      )
  unfolding send publish after_publish after_produce produce produced
  send-passed m w h = rw h refl

  send_with_duplicate-lost :
      (m : Sent R) (w : World R) (t : String)
      → kafka.produce_error w.calls ≡ none
      → kafka.produce_error (suc w.calls) ≡ some (kafka_exception t)
      → send_with_duplicate kafka true m w ≡ (
        raise (kafka_exception t),
        record w {
          log = w.log ++ m ∷ [];
          calls = suc (suc w.calls);
          counters = counted m w.counters;
        },
      )
  unfolding send_with_duplicate again
  send_with_duplicate-lost m w t h k = rw (send-passed m w h) (send-lost _ _ t k)

module _ {R D : Type 0} (py : Pydantic R D) (float : Float R) (parsing : Parsing R)
    (entity_id : ℕ → String) (s : Settings R) (kafka : Kafka) where
  -- A row in the loop whose feature is handed to Kafka, drawn to be duplicated, and the duplicate raises
  -- a KafkaException: the row's feature is in the log and counted as published, the event is counted as
  -- dropped, and the dispatcher is the same as before, so that the row's label is never scheduled.
  pub turn_row-unlabelled :
      (higgs : HiggsRow R) (draws : Draws R D) (r : Runner R) (t : String)
      → r.stop ≡ false
      → features_match_higgs_schema higgs.features ≡ true
      → float.lt draws.feature_draw.duplicate s.duplicate_rate ≡ true
      → kafka.produce_error r.world.calls ≡ none
      → kafka.produce_error (suc r.world.calls) ≡ some (kafka_exception t)
      → let w = r.world in
        let after = turn_row py float parsing entity_id s kafka (ok higgs) draws r in
        let m = feature_message py float s kafka (entity_id r.index) higgs.features draws in
        (after.world.log ≡ w.log ++ m ∷ [])
        × (after.world.counters.features_published ≡ suc w.counters.features_published)
        × (after.world.counters.events_dropped ≡ suc w.counters.events_dropped)
        × (after.world.dispatcher ≡ w.dispatcher)
  unfolding turn_row publish_row then_label publish_feature next after_error on_publish_error
      read_row feature_message
  turn_row-unlabelled higgs draws r t stop features duplicate h k =
      rw
        (
          stop,
          features,
          duplicate,
          send_with_duplicate-lost kafka
              (feature_message py float s kafka (entity_id r.index) higgs.features draws)
              (read_row r.world) t h k,
        )
        (refl, refl, refl, refl)
