-- ===== src/Base/Exception.antt =====
-- Python's exceptions as values: a call returns or raises.
use Prim.Native.String.{String}
use mathlib.Core.Path.{◌≡◌, refl}
use mathlib.Core.Logic.{◌⊎◌, inl, inr}

-- The classes of exception that the program tells apart, each with its text.
pub data Exc : Type 0 where
  value_error key_error runtime_error unicode_decode_error buffer_error : String → Exc
  kafka_exception database_error other_exception : String → Exc

-- repr(exc), str(exc.args[0])
abbrev pub text : Exc → String
text (value_error s) = s
text (key_error s) = s
text (runtime_error s) = s
text (unicode_decode_error s) = s
text (buffer_error s) = s
text (kafka_exception s) = s
text (database_error s) = s
text (other_exception s) = s

pub data Result {ℓ} (A : Type ℓ) : Type ℓ where
  ok : A → Result A
  raise : Exc → Result A

pub Result-cases :
    {A : Type 0} (r : Result A) → ((e : Exc) × (r ≡ raise e)) ⊎ ((a : A) × (r ≡ ok a))
Result-cases (raise e) = inl (e, refl)
Result-cases (ok a) = inr (a, refl)
