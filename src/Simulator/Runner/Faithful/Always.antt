-- ===== src/Simulator/Runner/Faithful/Always.antt =====
-- simulator.py: the invariant of the messages through each activity of the runner.
use agentic_ml_engineering_l.Base.{
  ℕ, String, Bool, true, false, not, Option, none, some, if◌then◌else◌, List, [], ◌∷◌, All, ◌≡◌,
  refl, ◌≤◌, Result, ok, raise, Bool-cases, inl, inr, ltb, ◌||◌, arith,
}
use agentic_ml_engineering_l.Base.Dict.{Dict}
use agentic_ml_engineering_l.Base.Int.{ℤ, pos, negsuc}
use agentic_ml_engineering_l.Schemas.Values.{Pydantic}
use agentic_ml_engineering_l.Schemas.Features.{features_match_higgs_schema}
use agentic_ml_engineering_l.Schemas.{dump_feature, dump_label, zero_or_one}
use agentic_ml_engineering_l.Schemas.RoundTrip.{
  validate_feature-dump_feature, validate_label-dump_label,
}
use agentic_ml_engineering_l.Simulator.Malformed.Rejected.{
  validate_feature-corrupt_feature_payload, validate_label-corrupt_label_payload,
}
use agentic_ml_engineering_l.Simulator.DelayQueue.{Entry, schedule, new_dispatcher}
use agentic_ml_engineering_l.Simulator.DelayQueue.Sound.{All-heappush, All-turn}
use agentic_ml_engineering_l.Simulator.Dataset.{
  HiggsRow, Parsing, parse_row, Response, DataDir, ensure_dataset,
}
use agentic_ml_engineering_l.Simulator.Runner.{Settings, LabelJob, World, Kafka, Float}
use agentic_ml_engineering_l.Simulator.Runner.Events.{
  Draws, feature_event, feature_message, publish_feature, label_event, label_job, scheduled_label,
  schedule_label, label_message, recorded, dispatch, turned, dispatcher_turn,
}
use agentic_ml_engineering_l.Simulator.Runner.Loop.{
  Loop, starting, running, returned, crashed, Runner, Activity, begun, row, reported, stopped,
  begin, crash, read_row, then_label, publish_row, after_error, next, turn_row, at_row, at_start,
  step, run, new_runner,
}
use agentic_ml_engineering_l.Simulator.Runner.Faithful.{accepts, IsTruthful, Waits, IsFaithful}
use agentic_ml_engineering_l.Simulator.Runner.Faithful.Sends.{
  Kept, send_with_duplicate-Kept, on_publish_error-IsFaithful,
}

module _ {R D : Type 0} (py : Pydantic R D) (float : Float R) (parsing : Parsing R)
    (entity_id : ℕ → String) (s : Settings R) (kafka : Kafka) where
  feature_message-IsTruthful :
      (id : String) (features : Dict String R) (draws : Draws R D)
      → features_match_higgs_schema features ≡ true
      → IsTruthful py (feature_message py float s kafka id features draws)
  unfolding feature_message accepts
  feature_message-IsTruthful id features draws h =
      let d = draws.feature_draw in
      let e = feature_event py float s kafka id features draws in
      elim (Bool-cases (float.lt d.invalid s.invalid_event_rate)) [
        | inl b ↦ rw (
          b,
          validate_feature-corrupt_feature_payload py float.one d.strategy d.field
              (dump_feature py e),
        )
        | inr b ↦ rw (b, validate_feature-dump_feature py e h)
      ]

  label_job-IsTruthful :
      (id : String) (target : ℕ) (draws : Draws R D)
      → target ≤ 1
      → IsTruthful py (label_message s (label_job py float s kafka id target draws))
  unfolding label_job label_message accepts
  label_job-IsTruthful id target draws h =
      let d = draws.label_draw in
      let e = label_event py float s kafka id target draws in
      elim (Bool-cases (float.lt d.invalid s.invalid_event_rate)) [
        | inl b ↦
            rw (
              b,
              validate_label-corrupt_label_payload py d.strategy d.field d.bad (dump_label py e),
            )
        | inr b ↦ rw (b, validate_label-dump_label py e h)
      ]

  -- The target that the label model accepts is 0 or 1.
  zero_or_one-le : (i : ℤ) (n : ℕ) → zero_or_one i ≡ some n → n ≤ 1
  unfolding zero_or_one
  zero_or_one-le (pos n) k h = ground (arith, h)
  zero_or_one-le (negsuc n) k h = ground (arith, h)

  publish_feature-Kept :
      (id : String) (features : Dict String R) (draws : Draws R D) (w : World R)
      → IsFaithful py s w
      → Kept py s kafka (publish_feature py float s kafka id features draws w)
  unfolding publish_feature
  publish_feature-Kept id features draws w f =
      elim (Bool-cases (features_match_higgs_schema features)) [
        | inl e ↦ rw e (
            send_with_duplicate-Kept py s kafka
              (float.lt draws.feature_draw.duplicate s.duplicate_rate) _ w
              (feature_message-IsTruthful id features draws e) f)
        | inr e ↦ rw e f
      ]

  scheduled_label-Kept :
      (id : String) (target : Option ℕ) (draws : Draws R D) (w : World R)
      → ((n : ℕ) → target ≡ some n → n ≤ 1)
      → IsFaithful py s w
      → Kept py s kafka (scheduled_label py float s kafka id target draws w)
  unfolding scheduled_label schedule
  scheduled_label-Kept id none draws w h f = f
  scheduled_label-Kept id (some target) draws w h f = (
    f.0,
    All-heappush _ _ w.dispatcher.heap (label_job-IsTruthful id target draws (h target refl)) f.1,
    f.2,
  )

  schedule_label-Kept :
      (id : String) (target : ℤ) (draws : Draws R D) (w : World R)
      → IsFaithful py s w
      → Kept py s kafka (schedule_label py float s kafka id target draws w)
  unfolding schedule_label
  schedule_label-Kept id target draws w f =
      scheduled_label-Kept id (zero_or_one target) draws w (zero_or_one-le target) f

  recorded-IsFaithful :
      (r : Result (Unit {0}) × World R)
      → Kept py s kafka r
      → IsFaithful py s (recorded py float s kafka r)
  unfolding recorded
  recorded-IsFaithful (ok _, w) f = f
  recorded-IsFaithful (raise e, w) f = on_publish_error-IsFaithful py s kafka e w f

  dispatch-IsFaithful :
      (job : LabelJob R) (w : World R)
      → IsTruthful py (label_message s job)
      → IsFaithful py s w
      → IsFaithful py s (dispatch py float s kafka job w)
  unfolding dispatch
  dispatch-IsFaithful job w t f =
      recorded-IsFaithful _
        (send_with_duplicate-Kept py s kafka job.duplicate (label_message s job) w t f)

  turned-IsFaithful :
      (now : ℕ) (heap : List (Entry (LabelJob R))) (w : World R)
      → All (Waits py s) heap
      → IsFaithful py s w
      → IsFaithful py s (turned py float s kafka now heap w)
  unfolding turned
  turned-IsFaithful now [] w h f = f
  turned-IsFaithful now (x ∷ heap) w h f = elim (Bool-cases (ltb now x.run_at)) [
    | inl e ↦ rw e f
    | inr e ↦ rw e (
        dispatch-IsFaithful x.callback _ h.0 (f.0, All-turn (Waits py s) now w.dispatcher f.1, f.2))
  ]

  dispatcher_turn-IsFaithful :
      (now : ℕ) (w : World R)
      → IsFaithful py s w
      → IsFaithful py s (dispatcher_turn py float s kafka now w)
  unfolding dispatcher_turn
  dispatcher_turn-IsFaithful now w f =
      elim (Bool-cases (w.dispatcher.stop || not w.dispatcher.alive)) [
        | inl e ↦ rw e f
        | inr e ↦ rw e (turned-IsFaithful now w.dispatcher.heap w f.1 f)
      ]

  next-IsFaithful :
      (p : Result (Unit {0}) × World R) (r : Runner R)
      → Kept py s kafka p
      → IsFaithful py s (next py float parsing entity_id s kafka p r).world
  unfolding next after_error
  next-IsFaithful (ok _, w) r f = f
  next-IsFaithful (raise e, w) r f = on_publish_error-IsFaithful py s kafka e w f

  then_label-Kept :
      (higgs : HiggsRow R) (index : ℕ) (draws : Draws R D) (p : Result (Unit {0}) × World R)
      → Kept py s kafka p
      → Kept py s kafka (then_label py float parsing entity_id s kafka higgs index draws p)
  unfolding then_label
  then_label-Kept higgs index draws (raise e, w) f = f
  then_label-Kept higgs index draws (ok _, w) f =
      schedule_label-Kept (entity_id index) higgs.target draws w f

  publish_row-Kept :
      (higgs : HiggsRow R) (index : ℕ) (draws : Draws R D) (w : World R)
      → IsFaithful py s w
      → Kept py s kafka (publish_row py float parsing entity_id s kafka higgs index draws w)
  unfolding publish_row
  publish_row-Kept higgs index draws w f =
      then_label-Kept higgs index draws _
        (publish_feature-Kept (entity_id index) higgs.features draws w f)

  if-IsFaithful :
      (b : Bool) (x y : Runner R)
      → IsFaithful py s x.world
      → IsFaithful py s y.world
      → IsFaithful py s (if b then x else y).world
  if-IsFaithful true x y f g = f
  if-IsFaithful false x y f g = g

  turn_row-IsFaithful :
      (higgs : Result (HiggsRow R)) (draws : Draws R D) (r : Runner R)
      → IsFaithful py s r.world
      → IsFaithful py s (turn_row py float parsing entity_id s kafka higgs draws r).world
  unfolding turn_row crash read_row
  turn_row-IsFaithful (raise e) draws r f = f
  turn_row-IsFaithful (ok higgs) draws r f =
      if-IsFaithful r.stop (record r { loop = returned }) _ f
        (next-IsFaithful _ r (publish_row-Kept higgs r.index draws (read_row r.world) f))

  at_row-IsFaithful :
      (loop : Loop) (cells : List String) (draws : Draws R D) (r : Runner R)
      → IsFaithful py s r.world
      → IsFaithful py s (at_row py float parsing entity_id s kafka loop cells draws r).world
  unfolding at_row
  at_row-IsFaithful running cells draws r f =
      turn_row-IsFaithful (parse_row parsing cells) draws r f
  at_row-IsFaithful starting cells draws r f = f
  at_row-IsFaithful returned cells draws r f = f
  at_row-IsFaithful crashed cells draws r f = f

  begin-IsFaithful :
      (p : Result (Unit {0})) (r : Runner R)
      → IsFaithful py s r.world
      → IsFaithful py s (begin p r).world
  unfolding begin crash
  begin-IsFaithful (ok _) r f = f
  begin-IsFaithful (raise e) r f = f

  module _ {B : Type 0} where
    at_start-IsFaithful :
        (loop : Loop) (response : Response B) (dir : DataDir B) (r : Runner R)
        → IsFaithful py s r.world
        → IsFaithful py s (at_start py float parsing entity_id s kafka loop response dir r).world
    unfolding at_start
    at_start-IsFaithful starting response dir r f =
        begin-IsFaithful (ensure_dataset response dir).0 r f
    at_start-IsFaithful running response dir r f = f
    at_start-IsFaithful returned response dir r f = f
    at_start-IsFaithful crashed response dir r f = f

    step-IsFaithful :
        (a : Activity R D B) (r : Runner R)
        → IsFaithful py s r.world
        → IsFaithful py s (step py float parsing entity_id s kafka a r).world
    unfolding step
    step-IsFaithful (begun response dir) r f = at_start-IsFaithful r.loop response dir r f
    step-IsFaithful (row cells draws) r f = at_row-IsFaithful r.loop cells draws r f
    step-IsFaithful (Activity.turned now) r f = dispatcher_turn-IsFaithful now r.world f
    step-IsFaithful (reported report now) r f = f
    step-IsFaithful stopped r f = f

    run-Kept :
        (activities : List (Activity R D B)) (r : Runner R)
        → IsFaithful py s r.world
        → IsFaithful py s (run py float parsing entity_id s kafka activities r).world
    unfolding run
    run-Kept [] r f = f
    run-Kept (a ∷ activities) r f = run-Kept activities _ (step-IsFaithful a r f)

    -- After any activities of a new runner, whatever Kafka raises and whatever is drawn: an event model
    -- accepts the payload of a message exactly where the message is not marked malformed, the same holds
    -- of the labels that wait, and the counts of features, labels, malformed messages and duplicates
    -- are those of the messages handed to Kafka.
    pub run-IsFaithful :
        (activities : List (Activity R D B)) (index : ℕ)
        → IsFaithful py s
            (run py float parsing entity_id s kafka activities (new_runner index)).world
    run-IsFaithful activities index =
        run-Kept activities (new_runner index)
          (tt, (unfold new_dispatcher in tt), (refl, refl, refl, refl))
