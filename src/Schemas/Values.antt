-- ===== src/Schemas/Values.antt =====
-- The values that `json.loads` returns, and what the event models use of Pydantic.
use agentic_ml_engineering_l.Base.{String, Bool, ◌≡◌, refl, ap, Option, some, [], ◌∷◌}
use agentic_ml_engineering_l.Base.Dict.{Dict}
use agentic_ml_engineering_l.Base.Int.{ℤ}

-- R: Python's float.
mutual
  pub data Json (R : Type 0) : Type 0 where
    null : Json R
    boolean : Bool → Json R
    integer : ℤ → Json R
    float : R → Json R
    string : String → Json R
    array : Items R → Json R
    object : Fields R → Json R

  pub data Items (R : Type 0) : Type 0 where
    nil : Items R
    cons : Json R → Items R → Items R

  pub data Fields (R : Type 0) : Type 0 where
    end : Fields R
    field : String → Json R → Fields R → Fields R

module _ {R : Type 0} where
  abbrev pub entries : Fields R → Dict String (Json R)
  entries end = []
  entries (field k v fs) = (k, v) ∷ entries fs

  abbrev pub of_entries : Dict String (Json R) → Fields R
  of_entries [] = end
  of_entries ((k, v) ∷ d) = field k v (of_entries d)

  pub entries-of_entries : (d : Dict String (Json R)) → entries (of_entries d) ≡ d
  entries-of_entries [] = refl
  entries-of_entries ((k, v) ∷ d) = ap (◌∷◌ (k, v)) (entries-of_entries d)

-- Pydantic's conversions of one JSON value in lax mode. The laws are those that it documents: a
-- value of the target type is taken as it is, and a datetime reads back from its ISO text.
pub record Pydantic (R D : Type 0) : Type 0 where
  pub to_str : Json R → Option String
  pub to_float : Json R → Option R
  pub to_int : Json R → Option ℤ
  pub to_datetime : Json R → Option D
  pub isoformat : D → String
  -- how a ValidationError counts its errors
  pub error_count : Json R → String
  pub to_str-string : (s : String) → to_str (string s) ≡ some s
  pub to_float-float : (x : R) → to_float (float x) ≡ some x
  pub to_int-integer : (i : ℤ) → to_int (integer i) ≡ some i
  pub to_datetime-isoformat : (d : D) → to_datetime (string (isoformat d)) ≡ some d
