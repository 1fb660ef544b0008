-- ===== src/Simulator/Dataset.antt =====
-- services/source_simulator/src/source_simulator/dataset.py: the download of the archive and the stream
-- of its rows. R: Python's float; B: a chunk of bytes. What csv.reader gives is a list of rows.
pub mod Whole
pub mod Cycle
use agentic_ml_engineering_l.Base.{
  ℕ, zero, suc, ◌-◌, String, Bool, true, false, not, Option, none, some, List, [], ◌∷◌, ◌++◌,
  length, take, drop, if◌then◌else◌, leb, Exc, Result, ok, raise, value_error, other_exception,
}
use agentic_ml_engineering_l.Base.Dict.{Dict}
use agentic_ml_engineering_l.Base.Int.{ℤ}
use agentic_ml_engineering_l.Schemas.Features.{higgs_feature_names}

pub record HiggsRow (R : Type 0) : Type 0 where
  pub target : ℤ
  pub features : Dict String R

-- The data directory: higgs.zip and higgs.zip.part.
pub record DataDir (B : Type 0) : Type 0 where
  pub dest : Option (List B)
  pub part : Option (List B)

-- One request: what raise_for_status raises, the chunks that arrive, and what breaks off the download
-- after them, if something does.
pub record Response (B : Type 0) : Type 0 where
  pub status_error : Option Exc
  pub chunks : List B
  pub broken : Option Exc

module _ {B : Type 0} where
  finished : Option Exc → List B → DataDir B → Result (Unit {0}) × DataDir B
  finished none written d = (ok tt, record d { dest = some written; part = none })
  finished (some e) written d = (raise e, record d { part = some written })

  download : Option Exc → Response B → DataDir B → Result (Unit {0}) × DataDir B
  unfolding finished
  download none r d = finished r.broken r.chunks d
  download (some e) r d = (raise e, d)

  present : Option (List B) → Response B → DataDir B → Result (Unit {0}) × DataDir B
  unfolding download
  present (some file) r d = (ok tt, d)
  present none r d = download r.status_error r d

  unfoldable pub ensure_dataset : Response B → DataDir B → Result (Unit {0}) × DataDir B
  unfolding present
  ensure_dataset r d = present d.dest r d

-- float(text), and int of a float.
pub record Parsing (R : Type 0) : Type 0 where
  pub to_float : String → Result R
  pub to_int : R → Result ℤ

module _ {R : Type 0} (parsing : Parsing R) where
  paired : String → Result R → Result (Dict String R) → Result (Dict String R)
  paired name (raise e) rest = raise e
  paired name (ok v) (raise e) = raise e
  paired name (ok v) (ok d) = ok ((name, v) ∷ d)

  -- dict(zip(names, (float(v) for v in values), strict=True))
  unfoldable pub zip_features : List String → List String → Result (Dict String R)
  unfolding paired
  zip_features [] [] = ok []
  zip_features [] (v ∷ vs) = raise (value_error "zip() argument 2 is longer than argument 1")
  zip_features (n ∷ ns) [] = raise (value_error "zip() argument 2 is shorter than argument 1")
  zip_features (n ∷ ns) (v ∷ vs) = paired n (parsing.to_float v) (zip_features ns vs)

  of_parts : Result ℤ → Result (Dict String R) → Result (HiggsRow R)
  of_parts (raise e) features = raise e
  of_parts (ok target) (raise e) = raise e
  of_parts (ok target) (ok features) = ok (record { target = target; features = features })

  int_of : Result R → Result ℤ
  int_of (raise e) = raise e
  int_of (ok v) = parsing.to_int v

  -- What is yielded for one row: its first cell and the next 28.
  unfoldable pub parse_row : List String → Result (HiggsRow R)
  unfolding of_parts int_of zip_features
  parse_row [] = raise (other_exception "list index out of range")
  parse_row (cell ∷ cells) =
      of_parts (int_of (parsing.to_float cell)) (zip_features higgs_feature_names (take 28 cells))

-- The rows of one pass over the file: csv.reader, or islice(reader, max_rows).
unfoldable pub one_pass {ℓ} : {A : Type ℓ} → Option ℕ → List A → List A
one_pass none rows = rows
one_pass (some max_rows) rows = take max_rows rows

-- The first n rows of stream_rows, with `passes` passes at most.
module _ {A : Type 0} where
  unfoldable pub cycled : ℕ → ℕ → List A → List A
  cycled zero n rows = []
  cycled (suc passes) n rows =
      let rest = rows ++ cycled passes (n - length rows) rows in
      if leb n (length rows) then take n rows else rest

  unfoldable pub stream_rows : ℕ → Option ℕ → Bool → ℕ → List A → List A
  unfolding one_pass cycled
  stream_rows passes max_rows cycle n rows =
      if cycle then cycled passes n (one_pass max_rows rows) else take n (one_pass max_rows rows)
