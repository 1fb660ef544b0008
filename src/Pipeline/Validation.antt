-- ===== src/Pipeline/Validation.antt =====
-- libs/amel_lake/src/amel_lake/validation.py: the schemas, and `validate`, which keeps the rows that
-- no failure case names. Pandera is a parameter.
pub mod Partition
use agentic_ml_engineering_l.Base.{
  ℕ, suc, ◌+◌, ◌*◌, ◌<◌, String, Bool, true, false, not, ◌||◌, Option, none, some, List, [], ◌∷◌,
  ◌++◌, length, All, In, ◌≡◌, ◌==◌, if◌then◌else◌,
}
use agentic_ml_engineering_l.Base.Dict.{Dict, get, put}
use agentic_ml_engineering_l.Base.Int.{ℤ, pos, negsuc}
use agentic_ml_engineering_l.Base.Equality.{string_eq, nat_eq, pair_eq}
use agentic_ml_engineering_l.Schemas.Features.{higgs_feature_names}

pub data Dtype : Type 0 where
  string datetime float int : Dtype

-- pa.Check; the bounds of a datetime, of a float, and the values of an int.
pub data Check : Type 0 where
  ge le : ℕ → Check
  in_range : ℤ → ℤ → Check
  isin : List ℤ → Check

-- pa.Column
pub record Column : Type 0 where
  pub dtype : Dtype
  pub checks : List Check
  pub unique : Bool
  pub nullable : Bool

-- pa.DataFrameSchema(columns, strict=False, coerce=False)
abbrev pub Schema : Type 0
Schema = Dict String Column

-- datetime(2000, 1, 1): 730119 days after 0001-01-01.
abbrev pub min_event_timestamp : ℕ
min_event_timestamp = 730119 * 86400 * 1000000

-- timedelta(days=1)
abbrev pub future_grace : ℕ
future_grace = 86400 * 1000000

abbrev pub column : Dtype → List Check → Column
column dtype checks = record { dtype = dtype; checks = checks; unique = false; nullable = false }

abbrev pub event_id_column : Column
event_id_column = record { dtype = string; checks = []; unique = true; nullable = false }

-- `now` is the clock.
abbrev pub timestamp_column : ℕ → Column
timestamp_column now = column datetime (ge min_event_timestamp ∷ le (now + future_grace) ∷ [])

-- _FEATURE_BOUNDS
abbrev pub feature_column : Column
feature_column = column float (in_range (negsuc 49) (pos 50) ∷ [])

unfoldable pub feature_columns : List String → Schema
feature_columns [] = []
feature_columns (name ∷ names) = (name, feature_column) ∷ feature_columns names

unfoldable pub features_schema : ℕ → Schema
unfolding feature_columns
features_schema now =
    ("event_id", event_id_column)
    ∷ ("entity_id", column string [])
    ∷ ("event_timestamp", timestamp_column now)
    ∷ feature_columns higgs_feature_names

unfoldable pub labels_schema : ℕ → Schema
labels_schema now =
    ("event_id", event_id_column)
    ∷ ("entity_id", column string [])
    ∷ ("target", column int (isin (pos 0 ∷ pos 1 ∷ []) ∷ []))
    ∷ ("label_timestamp", timestamp_column now)
    ∷ []

-- A line of `SchemaErrors.failure_cases`; a failure of a whole column has no index.
pub record FailureCase : Type 0 where
  pub column : String
  pub check : String
  pub index : Option ℕ

-- Pandera's `schema.validate(df, lazy=True)`: no failure case, or SchemaErrors with these. An index is
-- that of a row of the frame.
pub record Pandera (Row : Type 0) : Type 0 where
  pub failure_cases : Schema → List Row → List FailureCase
  pub index-lt-length :
      (schema : Schema) (df : List Row) (f : FailureCase) (i : ℕ)
      → In f (failure_cases schema df)
      → f.index ≡ some i
      → i < length df

pub record ValidationReport : Type 0 where
  pub total_rows : ℕ
  pub valid_rows : ℕ
  pub invalid_rows : ℕ
  pub failures : Dict (String × String) ℕ

abbrev pub mem : ℕ → List ℕ → Bool
mem i [] = false
mem i (j ∷ js) = j == i || mem i js

-- set(failure_cases["index"].dropna().tolist())
unfoldable pub insert_index : Option ℕ → List ℕ → List ℕ
insert_index none s = s
insert_index (some i) s = if mem i s then s else i ∷ s

unfoldable pub invalid_index : List FailureCase → List ℕ
unfolding insert_index
invalid_index [] = []
invalid_index (f ∷ fs) = insert_index f.index (invalid_index fs)

-- df.drop(index=...); the rows are counted from the first number.
unfoldable pub drop_index {ℓ} : {Row : Type ℓ} → List ℕ → ℕ → List Row → List Row
drop_index s i [] = []
drop_index s i (r ∷ df) = let rest = drop_index s (suc i) df in if mem i s then rest else r ∷ rest

abbrev pub one_more : Option ℕ → ℕ
one_more none = 1
one_more (some n) = n + 1

-- groupby(["column", "check"], dropna=False).size(); the order of the groups is not modelled.
unfoldable pub count_failures :
    List FailureCase → Dict (String × String) ℕ → Dict (String × String) ℕ
unfolding get put
count_failures [] d = d
count_failures (f ∷ fs) d =
    count_failures fs (put (f.column, f.check) (one_more (get (f.column, f.check) d)) d)

module _ {Row : Type 0} where
  reported : List Row → List FailureCase → List Row × ValidationReport
  unfolding drop_index invalid_index count_failures
  reported df [] = (
    df,
    record { total_rows = length df; valid_rows = length df; invalid_rows = 0; failures = [] },
  )
  reported df (f ∷ fs) =
      let index = invalid_index (f ∷ fs) in
      let valid_df = drop_index index 0 df in
      (
        valid_df,
        record {
          total_rows = length df;
          valid_rows = length valid_df;
          invalid_rows = length index;
          failures = count_failures (f ∷ fs) [];
        },
      )

  unfoldable pub validate : Pandera Row → List Row → Schema → List Row × ValidationReport
  unfolding reported
  validate pandera [] schema =
      ([], record { total_rows = 0; valid_rows = 0; invalid_rows = 0; failures = [] })
  validate pandera (r ∷ df) schema = reported (r ∷ df) (pandera.failure_cases schema (r ∷ df))
