-- ===== src/Schemas.antt =====
-- libs/amel_common/src/amel_common/schemas/events.py: the event models that the services exchange,
-- and the check that each makes of a JSON value. Pydantic's own conversions are the parameter
-- `Pydantic` of Schemas/Values.antt.
pub mod Values
pub mod Features
pub mod RoundTrip
use agentic_ml_engineering_l.Base.{
  ℕ, String, Bool, true, false, ◌&&◌, Option, none, some, List, [], ◌∷◌, ◌==◌, leb, if◌then◌else◌,
}
use agentic_ml_engineering_l.Base.Dict.{Dict, get}
use agentic_ml_engineering_l.Base.Equality.{string_eq, nat_eq, pair_eq}
use agentic_ml_engineering_l.Base.Int.{ℤ, pos, negsuc}
use agentic_ml_engineering_l.Base.Maybe.{◌>>=◌, ◌>>◌, guard}
use Values.{
  Json, Fields, null, boolean, integer, float, string, array, object, entries, of_entries, Pydantic,
}
use Features.{features_match_higgs_schema, float_entries, dump_floats, member}

abbrev pub feature_schema_version : String
feature_schema_version = "1.0.0"

abbrev pub label_schema_version : String
label_schema_version = "1.0.0"

-- R: Python's float; D: its datetime.
pub record FeatureEvent (R D : Type 0) : Type 0 where
  pub event_id : String
  pub entity_id : String
  pub event_timestamp : D
  pub schema_version : String
  pub source : String
  pub features : Dict String R
  pub trace_id : String

pub record LabelEvent (D : Type 0) : Type 0 where
  pub event_id : String
  pub entity_id : String
  pub target : ℕ
  pub label_timestamp : D
  pub schema_version : String

-- The names of the fields; `extra="forbid"` refuses every other key.
abbrev pub feature_fields : List String
feature_fields =
    "event_id" ∷ "entity_id" ∷ "event_timestamp" ∷ "schema_version" ∷ "source" ∷ "features"
    ∷ "trace_id" ∷ []

abbrev pub label_fields : List String
label_fields = "event_id" ∷ "entity_id" ∷ "target" ∷ "label_timestamp" ∷ "schema_version" ∷ []

-- No key outside the list.
unfoldable pub only {ℓ} : {V : Type ℓ} → List String → List (String × V) → Bool
unfolding member
only ks [] = true
only ks ((j, v) ∷ d) = member j ks && only ks d

-- A field with no default, and one with a default.
unfoldable pub required {ℓ} :
    {V : Type 0} {A : Type ℓ} → String → (V → Option A) → Dict String V → Option A
unfolding get
required k conv d = get k d >>= conv

unfoldable pub with_default {ℓ} :
    {V : Type 0} {A : Type ℓ} → String → (V → Option A) → A → Dict String V → Option A
unfolding get
with_default k conv a d = elim (get k d) [ none ↦ some a | some v ↦ conv v ]

-- Annotated[int, Field(ge=0, le=1)]
unfoldable pub zero_or_one : ℤ → Option ℕ
zero_or_one (pos n) = if leb n 1 then some n else none
zero_or_one (negsuc n) = none

module _ {R D : Type 0} (py : Pydantic R D) where
  feature_of_entries : Dict String (Json R) → Option (FeatureEvent R D)
  unfolding only required with_default
  feature_of_entries d = do
    guard (only feature_fields d)
    event_id ← required "event_id" py.to_str d
    entity_id ← required "entity_id" py.to_str d
    event_timestamp ← required "event_timestamp" py.to_datetime d
    schema_version ← with_default "schema_version" py.to_str feature_schema_version d
    source ← with_default "source" py.to_str "source_simulator" d
    features ← required "features" (float_entries py) d
    guard (features_match_higgs_schema features)
    trace_id ← required "trace_id" py.to_str d
    some (record {
      event_id = event_id;
      entity_id = entity_id;
      event_timestamp = event_timestamp;
      schema_version = schema_version;
      source = source;
      features = features;
      trace_id = trace_id;
    })

  -- FeatureEvent.model_validate; `none` is a ValidationError.
  unfoldable pub validate_feature : Json R → Option (FeatureEvent R D)
  unfolding feature_of_entries
  validate_feature (object fs) = feature_of_entries (entries fs)
  validate_feature _ = none

  label_of_entries : Dict String (Json R) → Option (LabelEvent D)
  unfolding only required with_default zero_or_one
  label_of_entries d = do
    guard (only label_fields d)
    event_id ← required "event_id" py.to_str d
    entity_id ← required "entity_id" py.to_str d
    number ← required "target" py.to_int d
    target ← zero_or_one number
    label_timestamp ← required "label_timestamp" py.to_datetime d
    schema_version ← with_default "schema_version" py.to_str label_schema_version d
    some (record {
      event_id = event_id;
      entity_id = entity_id;
      target = target;
      label_timestamp = label_timestamp;
      schema_version = schema_version;
    })

  -- LabelEvent.model_validate
  unfoldable pub validate_label : Json R → Option (LabelEvent D)
  unfolding label_of_entries
  validate_label (object fs) = label_of_entries (entries fs)
  validate_label _ = none

  -- event.model_dump(mode="json")
  unfoldable pub dump_feature : FeatureEvent R D → Dict String (Json R)
  unfolding dump_floats
  dump_feature e =
      ("event_id", string e.event_id)
      ∷ ("entity_id", string e.entity_id)
      ∷ ("event_timestamp", string (py.isoformat e.event_timestamp))
      ∷ ("schema_version", string e.schema_version)
      ∷ ("source", string e.source)
      ∷ ("features", object (dump_floats e.features))
      ∷ ("trace_id", string e.trace_id)
      ∷ []

  unfoldable pub dump_label : LabelEvent D → Dict String (Json R)
  dump_label e =
      ("event_id", string e.event_id)
      ∷ ("entity_id", string e.entity_id)
      ∷ ("target", integer (pos e.target))
      ∷ ("label_timestamp", string (py.isoformat e.label_timestamp))
      ∷ ("schema_version", string e.schema_version)
      ∷ []
