-- ===== src/Schemas/Features.antt =====
-- The 28 HIGGS feature names of events.py, and the check that a dict of features has exactly them.
use agentic_ml_engineering_l.Base.{
  String, Bool, true, false, ◌&&◌, Option, none, some, List, [], ◌∷◌, ◌==◌, if◌then◌else◌,
}
use agentic_ml_engineering_l.Base.Dict.{Dict}
use agentic_ml_engineering_l.Base.Equality.{string_eq, nat_eq, pair_eq}
use agentic_ml_engineering_l.Base.Maybe.{◌>>=◌}
use agentic_ml_engineering_l.Schemas.Values.{Json, Fields, float, object, end, field, Pydantic}

abbrev pub higgs_feature_names : List String
higgs_feature_names =
    "lepton_pt" ∷ "lepton_eta" ∷ "lepton_phi" ∷ "missing_energy_magnitude" ∷ "missing_energy_phi"
    ∷ "jet1_pt" ∷ "jet1_eta" ∷ "jet1_phi" ∷ "jet1_b_tag" ∷ "jet2_pt" ∷ "jet2_eta" ∷ "jet2_phi"
    ∷ "jet2_b_tag" ∷ "jet3_pt" ∷ "jet3_eta" ∷ "jet3_phi" ∷ "jet3_b_tag" ∷ "jet4_pt" ∷ "jet4_eta"
    ∷ "jet4_phi" ∷ "jet4_b_tag" ∷ "m_jj" ∷ "m_jjj" ∷ "m_lv" ∷ "m_jlv" ∷ "m_bb" ∷ "m_wbb" ∷ "m_wwbb"
    ∷ []

-- `k in xs`
unfoldable pub member : String → List String → Bool
member k [] = false
member k (j ∷ js) = if j == k then true else member k js

-- Every element of the first list is in the second.
unfoldable pub subset : List String → List String → Bool
unfolding member
subset [] ys = true
subset (x ∷ xs) ys = member x ys && subset xs ys

abbrev pub keys {ℓ} : {V : Type ℓ} → List (String × V) → List String
keys [] = []
keys ((k, v) ∷ d) = k ∷ keys d

module _ {R : Type 0} where
  -- FeatureEvent.features_match_higgs_schema: equality of the two frozensets.
  unfoldable pub features_match_higgs_schema : Dict String R → Bool
  unfolding subset
  features_match_higgs_schema value =
      subset (keys value) higgs_feature_names && subset higgs_feature_names (keys value)

  -- dict[str, float] as JSON
  unfoldable pub dump_floats : Dict String R → Fields R
  dump_floats [] = end
  dump_floats ((k, x) ∷ d) = field k (float x) (dump_floats d)

module _ {R D : Type 0} (py : Pydantic R D) where
  unfoldable pub float_fields : Fields R → Option (Dict String R)
  float_fields end = some []
  float_fields (field k v fs) = do x ← py.to_float v; rest ← float_fields fs; some ((k, x) ∷ rest)

  -- Conversion to dict[str, float].
  unfoldable pub float_entries : Json R → Option (Dict String R)
  unfolding float_fields
  float_entries (object fs) = float_fields fs
  float_entries _ = none
