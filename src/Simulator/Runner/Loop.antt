-- ===== src/Simulator/Runner/Loop.antt =====
-- simulator.py, `_run` and `_loop`: a row of the stream, the dispatcher's thread, a delivery report and
-- stop(), in any order. While the loop is paused no row comes.
use agentic_ml_engineering_l.Base.{
  ℕ, suc, String, Bool, true, false, none, some, List, [], ◌∷◌, if◌then◌else◌, Exc, Result, ok,
  raise,
}
use agentic_ml_engineering_l.Base.Exception.{text}
use agentic_ml_engineering_l.Schemas.Values.{Pydantic}
use agentic_ml_engineering_l.Simulator.DelayQueue.{new_dispatcher}
use agentic_ml_engineering_l.Simulator.Dataset.{
  HiggsRow, Parsing, parse_row, Response, DataDir, ensure_dataset,
}
use agentic_ml_engineering_l.Simulator.Runner.{
  Settings, ProducerHealth, World, Kafka, on_publish_error, Float,
}
use agentic_ml_engineering_l.Simulator.Runner.Events.{
  Draws, publish_feature, schedule_label, dispatcher_turn,
}

-- Where the thread stands: in the loop, returned, or ended by an exception.
pub data Loop : Type 0 where
  starting running returned crashed : Loop

-- The runner; `index` is the number of the next row.
pub record Runner (R : Type 0) : Type 0 where
  pub world : World R
  pub index : ℕ
  pub loop : Loop
  pub ready : Bool
  pub stop : Bool

-- A delivery report: no error, or its text and whether it is fatal.
pub data Report : Type 0 where
  delivered : Report
  failed : String → Bool → Report

pub data Activity (R D B : Type 0) : Type 0 where
  begun : Response B → DataDir B → Activity R D B
  row : List String → Draws R D → Activity R D B
  turned : ℕ → Activity R D B
  reported : Report → ℕ → Activity R D B
  stopped : Activity R D B

-- record_delivery
unfoldable pub record_delivery : Report → ℕ → ProducerHealth → ProducerHealth
record_delivery delivered now h = record h { last_delivery_ok_at = some now }
record_delivery (failed err fatal) now h = record h {
  delivery_failures = suc h.delivery_failures;
  last_delivery_error = some err;
  last_delivery_error_at = some now;
  fatal_error = if fatal then some err else h.fatal_error;
}

module _ {R : Type 0} where
  -- _run records what _loop raises.
  unfoldable pub crash : Exc → Runner R → Runner R
  crash e r = record r {
    loop = crashed;
    world = record r.world { health = record r.world.health { loop_error = some (text e) } };
  }

  -- The start of _loop.
  unfoldable pub begin : Result (Unit {0}) → Runner R → Runner R
  unfolding crash
  begin (ok _) r = record r { loop = running; ready = true }
  begin (raise e) r = crash e r

  unfoldable pub read_row : World R → World R
  read_row w = record w { counters = record w.counters { rows_read = suc w.counters.rows_read } }

module _ {R D : Type 0} (py : Pydantic R D) (float : Float R) (parsing : Parsing R)
    (entity_id : ℕ → String) (s : Settings R) (kafka : Kafka) where
  unfoldable pub then_label :
      HiggsRow R → ℕ → Draws R D → Result (Unit {0}) × World R → Result (Unit {0}) × World R
  unfolding schedule_label
  then_label higgs index draws (raise e, w) = (raise e, w)
  then_label higgs index draws (ok _, w) =
      schedule_label py float s kafka (entity_id index) higgs.target draws w

  -- The try block of the loop.
  unfoldable pub publish_row : HiggsRow R → ℕ → Draws R D → World R → Result (Unit {0}) × World R
  unfolding publish_feature then_label
  publish_row higgs index draws w =
      then_label higgs index draws
        (publish_feature py float s kafka (entity_id index) higgs.features draws w)

  -- A fatal error returns; after another the loop goes on.
  unfoldable pub after_error : Bool × World R → Runner R → Runner R
  after_error (fatal, w) r = record r {
    world = w;
    index = suc r.index;
    loop = if fatal then returned else running;
  }

  unfoldable pub next : Result (Unit {0}) × World R → Runner R → Runner R
  unfolding on_publish_error after_error
  next (ok _, w) r = record r { world = w; index = suc r.index }
  next (raise e, w) r = after_error (on_publish_error kafka e w) r

  unfoldable pub turn_row : Result (HiggsRow R) → Draws R D → Runner R → Runner R
  unfolding crash next publish_row read_row
  turn_row (raise e) draws r = crash e r
  turn_row (ok higgs) draws r =
      if r.stop
      then record r { loop = returned }
      else next (publish_row higgs r.index draws (read_row r.world)) r

  -- What the thread does with a row, where it is in the loop.
  unfoldable pub at_row : Loop → List String → Draws R D → Runner R → Runner R
  unfolding turn_row parse_row
  at_row running cells draws r = turn_row (parse_row parsing cells) draws r
  at_row starting cells draws r = r
  at_row returned cells draws r = r
  at_row crashed cells draws r = r

  unfoldable pub at_start : {B : Type 0} → Loop → Response B → DataDir B → Runner R → Runner R
  unfolding begin ensure_dataset
  at_start starting response dir r = begin (ensure_dataset response dir).0 r
  at_start running response dir r = r
  at_start returned response dir r = r
  at_start crashed response dir r = r

  unfoldable pub step : {B : Type 0} → Activity R D B → Runner R → Runner R
  unfolding at_start at_row dispatcher_turn record_delivery
  step (begun response dir) r = at_start r.loop response dir r
  step (row cells draws) r = at_row r.loop cells draws r
  step (turned now) r = record r { world = dispatcher_turn py float s kafka now r.world }
  step (reported report now) r = record r {
    world = record r.world { health = record_delivery report now r.world.health };
  }
  step stopped r = record r {
    stop = true;
    world = record r.world { dispatcher = record r.world.dispatcher { stop = true } };
  }

  unfoldable pub run : {B : Type 0} → List (Activity R D B) → Runner R → Runner R
  unfolding step
  run [] r = r
  run (a ∷ activities) r = run activities (step a r)

-- The runner before its thread starts: no message, every count 0, and no label to send.
abbrev pub new_runner : {R : Type 0} → ℕ → Runner R
new_runner index = record {
  world = record {
    log = [];
    calls = 0;
    counters = record {
      rows_read = 0;
      features_published = 0;
      labels_published = 0;
      duplicates_published = 0;
      malformed_published = 0;
      events_dropped = 0;
    };
    health = record {
      delivery_failures = 0;
      last_delivery_error = none;
      last_delivery_error_at = none;
      last_delivery_ok_at = none;
      fatal_error = none;
      loop_error = none;
    };
    dispatcher = new_dispatcher;
  };
  index = index;
  loop = starting;
  ready = false;
  stop = false;
}
