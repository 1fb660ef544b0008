-- ===== src/Inference/Features.antt =====
-- features.py: the online features of one entity, from the feature server's answer.
use agentic_ml_engineering_l.Base.{
  String, Bool, true, false, ◌||◌, not, Option, none, some, List, [], ◌∷◌, In, ◌≡◌, refl, ap,
  if◌then◌else◌, is_some, Bool-cases, Option-cases, ==_refl, sym, subst, arith, inl, inr,
  value_error, other_exception, runtime_error, Exc, Result, ok, raise,
}
use agentic_ml_engineering_l.Base.Dict.{Dict, get, put}
use agentic_ml_engineering_l.Base.Equality.{string_eq}
use agentic_ml_engineering_l.Schemas.Features.{higgs_feature_names}

-- What the POST gives: an httpx.HTTPError, a body that is no JSON or lacks a key, or the names and each
-- column's values, where a value may be null; of another one, what `float` of it returns or raises.
pub data Answer (R : Type 0) : Type 0 where
  http_error : String → Answer R
  malformed : Exc → Answer R
  body : List String → List (List (Option (Result R))) → Answer R

module _ {V : Type 0} where
  -- {name: col["values"][0] for name, col in zip(names, results, strict=True)}
  unfoldable pub first_values :
      List String
      → List (List (Option V))
      → Dict String (Option V)
      → Result (Dict String (Option V))
  unfolding put
  first_values [] [] d = ok d
  first_values [] (c ∷ cs) d = raise (value_error "zip() argument 2 is longer than argument 1")
  first_values (n ∷ ns) [] d = raise (value_error "zip() argument 2 is shorter than argument 1")
  first_values (n ∷ ns) ([] ∷ cs) d = raise (other_exception "list index out of range")
  first_values (n ∷ ns) ((v ∷ vs) ∷ cs) d = first_values ns cs (put n v d)

  abbrev pub flat : Option (Option V) → Option V
  flat none = none
  flat (some v) = v

  -- {name: values.get(name) for name in names}
  unfoldable pub named : List String → Dict String (Option V) → Dict String (Option V)
  unfolding get
  named [] values = []
  named (n ∷ ns) values = (n, flat (get n values)) ∷ named ns values

  unfoldable pub any_none : Dict String (Option V) → Bool
  any_none [] = false
  any_none ((n, v) ∷ d) = not (is_some v) || any_none d

module _ {R : Type 0} where
  with_float : String → Result R → Result (Dict String R) → Result (Dict String R)
  with_float n (raise e) rest = raise e
  with_float n (ok v) (raise e) = raise e
  with_float n (ok v) (ok d) = ok ((n, v) ∷ d)

  -- {k: float(v) for k, v in features.items() if v is not None}
  unfoldable pub without_none : Dict String (Option (Result R)) → Result (Dict String R)
  unfolding with_float
  without_none [] = ok []
  without_none ((n, none) ∷ d) = without_none d
  without_none ((n, some v) ∷ d) = with_float n v (without_none d)

  found : Result (Dict String R) → Result (Option (Dict String R))
  found (raise e) = raise e
  found (ok features) = ok (some features)

  chosen : Dict String (Option (Result R)) → Result (Option (Dict String R))
  unfolding any_none without_none found
  chosen features = if any_none features then ok none else found (without_none features)

  of_values : Result (Dict String (Option (Result R))) → Result (Option (Dict String R))
  unfolding chosen named
  of_values (raise e) = raise e
  of_values (ok values) = chosen (named higgs_feature_names values)

  -- FeatureFetchError is a RuntimeError.
  unfoldable pub get_features : Answer R → Result (Option (Dict String R))
  unfolding of_values first_values
  get_features (http_error t) = raise (runtime_error t)
  get_features (malformed e) = raise e
  get_features (body names results) = of_values (first_values names results [])

  abbrev pub keys : Dict String R → List String
  keys [] = []
  keys ((n, v) ∷ d) = n ∷ keys d

  -- [features[name] for name in names]
  unfoldable pub columns_of : List String → Dict String R → Option (List R)
  unfolding get
  columns_of [] d = some []
  columns_of (n ∷ ns) d =
      let rest = columns_of ns d in
      elim (get n d) [ none ↦ none | some v ↦ elim rest [ none ↦ none | some vs ↦ some (v ∷ vs) ] ]

  keys-with_float :
      (n : String) (ns : List String) (v : Result R) (rest : Result (Dict String R))
      (d : Dict String R)
      → ((d' : Dict String R) → rest ≡ ok d' → keys d' ≡ ns)
      → with_float n v rest ≡ ok d
      → keys d ≡ n ∷ ns
  unfolding with_float
  keys-with_float n ns (raise e) rest d f h = absurd cc
  keys-with_float n ns (ok v) (raise e) d f h = absurd cc
  keys-with_float n ns (ok v) (ok d') d f h =
      let e : d ≡ (n, v) ∷ d' = cc in rw e (ap (◌∷◌ n) (f d' refl))

  keys-without_none :
      (ns : List String) (values : Dict String (Option (Result R))) (d : Dict String R)
      → any_none (named ns values) ≡ false
      → without_none (named ns values) ≡ ok d
      → keys d ≡ ns
  unfolding any_none named without_none
  keys-without_none [] values d h k = let e : d ≡ [] = cc in rw e refl
  keys-without_none (n ∷ ns) values d h k = elim (Option-cases (flat (get n values))) [
    | inl q ↦ absurd (let f = rw q at h in cc)
    | inr (v, q) ↦
        keys-with_float n ns v (without_none (named ns values)) d
          (λ d' e. keys-without_none ns values d' (rw q at h) e) (rw q at k)
  ]

  get-keys : (n : String) (d : Dict String R) → In n (keys d) → is_some (get n d) ≡ true
  unfolding get
  get-keys n [] i = elim i [ ]
  get-keys n ((m, v) ∷ d) (inl e) = rw (e, ==_refl m) refl
  get-keys n ((m, v) ∷ d) (inr i) = ground (arith, get-keys n d i)

  -- Every column of the names is there.
  abbrev pub IsComplete : List String → Dict String R → Type 0
  IsComplete ns d = is_some (columns_of ns d) ≡ true

  columns_of-IsComplete :
      (ns : List String) (d : Dict String R)
      → ((n : String) → In n ns → In n (keys d))
      → IsComplete ns d
  unfolding columns_of
  columns_of-IsComplete [] d h = refl
  columns_of-IsComplete (n ∷ ns) d h =
      let rest = columns_of-IsComplete ns d (λ m i. h m (inr i)) in
      let here = get-keys n d (h n (inl refl)) in ground arith

  found_lem :
      (r : Result (Dict String R)) (features : Dict String R)
      → found r ≡ ok (some features)
      → r ≡ ok features
  unfolding found
  found_lem (raise e) features h = absurd cc
  found_lem (ok d) features h = cc

  of_values-keys :
      (r : Result (Dict String (Option (Result R)))) (features : Dict String R)
      → of_values r ≡ ok (some features)
      → keys features ≡ higgs_feature_names
  unfolding of_values chosen found
  of_values-keys (raise e) features h = absurd cc
  of_values-keys (ok values) features h =
      elim (Bool-cases (any_none (named higgs_feature_names values))) [
        | inl q ↦ absurd (let f = rw q at h in cc)
        | inr q ↦
            keys-without_none higgs_feature_names values features q
              (found_lem (without_none (named higgs_feature_names values)) features (rw q at h))
      ]

  -- When the fetch gives features, they are the 28 names in the order of training, so a frame of the
  -- training columns can be built of them.
  pub get_features-IsComplete :
      (answer : Answer R) (features : Dict String R)
      → get_features answer ≡ ok (some features)
      → (keys features ≡ higgs_feature_names) × IsComplete higgs_feature_names features
  unfolding get_features
  get_features-IsComplete (http_error t) features h = absurd cc
  get_features-IsComplete (malformed e) features h = absurd cc
  get_features-IsComplete (body names results) features h =
      let k = of_values-keys (first_values names results []) features h in
      (k, columns_of-IsComplete higgs_feature_names features (λ n i. subst (In n) (sym k) i))
