-- ===== src/Pipeline/Keys.antt =====
-- libs/amel_lake/src/amel_lake/keys.py: the object keys of a run.
use agentic_ml_engineering_l.Base.{
  String, Bool, true, false, ◌||◌, ◌≡◌, refl, ap, ◌==◌, if◌then◌else◌,
}
use Prim.Native.Char.{Char, code}
use Prim.Native.String.{◌++◌}
use agentic_ml_engineering_l.Base.Equality.{nat_eq}

-- A character that an object key does not take.
unfoldable pub is_unsafe : Char → Bool
is_unsafe c = code c == b':' || code c == b'+'

unfoldable pub safe_char : Char → Char
unfolding is_unsafe
safe_char c = if is_unsafe c then "_" else c

-- run_id.replace(":", "_").replace("+", "_")
unfoldable pub safe_run_id : String → String
unfolding safe_char
safe_run_id String.[] = ""
safe_run_id (String.◌∷◌ c s) = String.◌∷◌ (safe_char c) (safe_run_id s)

-- `dt` is event_date.isoformat().
unfoldable pub bronze_key : String → String → String → String
unfolding safe_run_id
bronze_key dataset dt run_id =
    "higgs/" ++ dataset ++ "/dt=" ++ dt ++ "/run_id=" ++ safe_run_id run_id ++ ".parquet"

unfoldable pub silver_key : String → String → String → String
unfolding safe_run_id
silver_key dataset dt run_id =
    "higgs/" ++ dataset ++ "/dt=" ++ dt ++ "/run_id=" ++ safe_run_id run_id ++ ".parquet"

unfoldable pub gold_training_key : String → String
unfolding safe_run_id
gold_training_key run_id = "training/run_id=" ++ safe_run_id run_id ++ ".parquet"

unfoldable pub validation_report_key : String → String
unfolding safe_run_id
validation_report_key run_id =
    "artifacts/validation_reports/run_id=" ++ safe_run_id run_id ++ ".json"

-- No character of the text is unsafe.
abbrev pub IsSafe : String → Type 0
IsSafe String.[] = Unit
IsSafe (String.◌∷◌ c s) = (is_unsafe c ≡ false) × IsSafe s

chosen_safe : (b : Bool) (c : Char) → is_unsafe c ≡ b → is_unsafe (if b then "_" else c) ≡ false
unfolding is_unsafe
chosen_safe true c e = refl
chosen_safe false c e = e

safe_char-IsSafe : (c : Char) → is_unsafe (safe_char c) ≡ false
unfolding safe_char
safe_char-IsSafe c = chosen_safe (is_unsafe c) c refl

IsSafe-safe_char : (c : Char) → is_unsafe c ≡ false → safe_char c ≡ c
unfolding safe_char
IsSafe-safe_char c e = rw e

-- A safe run id has no character that an object key does not take, and making it safe again changes
-- nothing, so a key that is built from it is the same.
pub safe_run_id-IsSafe :
    (s : String) → IsSafe (safe_run_id s) × (safe_run_id (safe_run_id s) ≡ safe_run_id s)
unfolding safe_run_id
safe_run_id-IsSafe String.[] = (tt, refl)
safe_run_id-IsSafe (String.◌∷◌ c s) =
    let (safe, same) = safe_run_id-IsSafe s in
    (
      (safe_char-IsSafe c, safe),
      rw (IsSafe-safe_char (safe_char c) (safe_char-IsSafe c)) (ap (String.◌∷◌ (safe_char c)) same),
    )
