-- ===== src/Schemas/RoundTrip.antt =====
-- events.py: what one service dumps, the other service's model reads back.
use agentic_ml_engineering_l.Base.{◌≡◌, refl, true, some, [], ◌∷◌, ◌≤◌, arith}
use agentic_ml_engineering_l.Base.Dict.{Dict}
use agentic_ml_engineering_l.Base.Int.{pos}
use agentic_ml_engineering_l.Base.{String}
use agentic_ml_engineering_l.Schemas.Values.{object, of_entries, Pydantic}
use agentic_ml_engineering_l.Schemas.Features.{
  float_fields, float_entries, dump_floats, features_match_higgs_schema,
}
use agentic_ml_engineering_l.Schemas.{
  FeatureEvent, LabelEvent, validate_feature, validate_label, dump_feature, dump_label, zero_or_one,
}

module _ {R D : Type 0} (py : Pydantic R D) where
  float_fields-dump_floats : (d : Dict String R) → float_fields py (dump_floats d) ≡ some d
  unfolding float_fields dump_floats
  float_fields-dump_floats [] = refl
  float_fields-dump_floats ((k, x) ∷ d) = simp (py.to_float-float, float_fields-dump_floats d)

  zero_or_one_lem : (n : _) → n ≤ 1 → zero_or_one (pos n) ≡ some n
  unfolding zero_or_one
  zero_or_one_lem n h = ground arith

  -- A feature event whose features are the 28 names is read back from its dump unchanged.
  pub validate_feature-dump_feature :
      (e : FeatureEvent R D)
      → features_match_higgs_schema e.features ≡ true
      → validate_feature py (object (of_entries (dump_feature py e))) ≡ some e
  unfolding validate_feature dump_feature float_entries
  validate_feature-dump_feature e h =
      simp (py.to_str-string, py.to_datetime-isoformat, float_fields-dump_floats, h)

  -- A label event whose target is 0 or 1 is read back from its dump unchanged.
  pub validate_label-dump_label :
      (e : LabelEvent D)
      → e.target ≤ 1
      → validate_label py (object (of_entries (dump_label py e))) ≡ some e
  unfolding validate_label dump_label
  validate_label-dump_label e h =
      simp
        (py.to_str-string, py.to_datetime-isoformat, py.to_int-integer, zero_or_one_lem e.target h)
