-- ===== src/Ingestor/Loop.antt =====
-- consumer.py, `_run`: the consume loop, one round for each turn of `while`.
pub mod Acknowledged
use agentic_ml_engineering_l.Base.{
  ℕ, String, Bool, true, false, Option, none, some, List, [], ◌∷◌, Exc, Result, ok, raise,
}
use agentic_ml_engineering_l.Base.Exception.{text}
use agentic_ml_engineering_l.Ingestor.{Settings, Message, External, World, Env}
use agentic_ml_engineering_l.Ingestor.Batch.{process_batch}

-- What one turn meets: what `_poll_batch` returns or raises, the failures, and the clock at the end.
pub record Round (B : Type 0) : Type 0 where
  pub polled : Result (List (Message B))
  pub env : Env
  pub now : ℕ

-- The fields of StreamIngestor that the loop writes; `closed` after `consumer.close()`.
pub record Loop (T : Type 0) : Type 0 where
  pub world : World T
  pub loop_error : Option String
  pub last_progress_at : ℕ
  pub closed : Bool

-- Whether the loop goes on, and its state.
pub data Turned (T : Type 0) : Type 0 where
  goes_on ends : Loop T → Turned T

module _ {T : Type 0} where
  -- `except Exception`, then `finally`.
  unfoldable pub die : Loop T → World T → Exc → Loop T
  die l w e = record {
    world = w;
    loop_error = some (text e);
    last_progress_at = l.last_progress_at;
    closed = true;
  }

  abbrev pub advance : Loop T → World T → ℕ → Loop T
  advance l w now = record l { world = w; last_progress_at = now }

module _ {B R D T : Type 0} (x : External B R D T) (s : Settings) where
  after_batch : Loop T → ℕ → Option (Result (Unit {0}) × World T) → Option (Turned T)
  unfolding die
  after_batch l now none = none
  after_batch l now (some (ok _, w)) = some (goes_on (advance l w now))
  after_batch l now (some (raise e, w)) = some (ends (die l w e))

  after_poll : Env → ℕ → Loop T → Result (List (Message B)) → Option (Turned T)
  unfolding after_batch
  after_poll env now l (raise e) = some (ends (die l l.world e))
  after_poll env now l (ok []) = some (goes_on (advance l l.world now))
  after_poll env now l (ok (m ∷ batch)) =
      after_batch l now (process_batch x s env (m ∷ batch) l.world)

  unfoldable pub turn : Round B → Loop T → Option (Turned T)
  unfolding after_poll
  turn r l = after_poll r.env r.now l r.polled

  -- The rounds until the stop event is set; an exception ends the loop before.
  unfoldable pub run : List (Round B) → Loop T → Option (Loop T)
  unfolding turn
  run [] l = some (record l { closed = true })
  run (r ∷ rounds) l = elim (turn r l) [
    | none ↦ none
    | some t ↦ elim t [ ends l' ↦ some l' | goes_on l' ↦ run rounds l' ]
  ]
