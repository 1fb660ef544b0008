-- ===== src/Simulator/Runner/Faithful.antt =====
-- simulator.py against events.py: what the simulator says of its messages is what a consumer finds.
pub mod Sends
pub mod Always
use agentic_ml_engineering_l.Base.{
  ℕ, suc, String, Bool, true, false, not, Option, none, some, is_some, List, [], ◌∷◌, ◌++◌, All,
  All-append, ◌≡◌, refl, sym, ap, ◌∙◌,
}
use agentic_ml_engineering_l.Base.Dict.{Dict}
use agentic_ml_engineering_l.Schemas.Values.{Json, object, of_entries, Pydantic}
use agentic_ml_engineering_l.Schemas.{validate_feature, validate_label}
use agentic_ml_engineering_l.Simulator.DelayQueue.{Entry}
use agentic_ml_engineering_l.Simulator.Runner.{
  EventType, feature, label, Sent, Counters, Settings, LabelJob, World, plus_if, is_feature,
  is_label,
}
use agentic_ml_engineering_l.Simulator.Runner.Events.{label_message}

-- The number of messages that pass a test.
abbrev pub count : {R : Type 0} → (Sent R → Bool) → List (Sent R) → ℕ
count p [] = 0
count p (m ∷ log) = plus_if (p m) (count p log)

-- The counters are the numbers of messages of each kind.
abbrev pub Counts : {R : Type 0} → List (Sent R) → Counters → Type 0
Counts log c =
    (c.features_published ≡ count (λ m. is_feature m.event_type) log)
    × (c.labels_published ≡ count (λ m. is_label m.event_type) log)
    × (c.malformed_published ≡ count (λ m. m.malformed) log)
    × (c.duplicates_published ≡ count (λ m. m.duplicate) log)

module _ {R D : Type 0} (py : Pydantic R D) where
  -- Whether the event model of a message's topic accepts its payload.
  unfoldable pub accepts : EventType → Dict String (Json R) → Bool
  unfolding validate_feature validate_label
  accepts feature payload = is_some (validate_feature py (object (of_entries payload)))
  accepts label payload = is_some (validate_label py (object (of_entries payload)))

  abbrev pub IsTruthful : Sent R → Type 0
  IsTruthful m = accepts m.event_type m.payload ≡ not m.malformed

  module _ (s : Settings R) where
    abbrev pub Waits : Entry (LabelJob R) → Type 0
    Waits e = IsTruthful (label_message s e.callback)

    -- Every message and every label that waits is truthful, and the counters count the messages.
    abbrev pub IsFaithful : World R → Type 0
    IsFaithful w = All IsTruthful w.log × All Waits w.dispatcher.heap × Counts w.log w.counters
