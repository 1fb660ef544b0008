-- ===== src/Inference/Service/Accounts.antt =====
-- service.py's counters: each answered prediction has its row or a counted failure, and its event or a
-- counted failure.
use agentic_ml_engineering_l.Base.{
  ℕ, ◌+◌, suc, String, Bool, true, false, not, ◌&&◌, Option, none, some, List, [], ◌∷◌, ◌++◌,
  length, length-append, ◌≡◌, ◌==◌, if◌then◌else◌, Result, ok, raise, Bool-cases, inl, inr, arith,
}
use agentic_ml_engineering_l.Base.Dict.{Dict}
use agentic_ml_engineering_l.Base.Equality.{string_eq}
use agentic_ml_engineering_l.Schemas.Features.{higgs_feature_names}
use agentic_ml_engineering_l.Inference.{LoadedModel, ModelMetadata}
use agentic_ml_engineering_l.Inference.Features.{get_features, columns_of}
use agentic_ml_engineering_l.Inference.Service.{
  Estimator, Clients, Env, World, scored, score, predict, predict_raw, fetched, predict_entity,
}
use agentic_ml_engineering_l.Inference.Service.Answered.{recorded-Answered}

-- A request, and the model that serves when it comes.
pub data Request (M R : Type 0) : Type 0 where
  raw_request :
      Env R → Dict String R → Option String → String → Option (LoadedModel M) → Request M R
  entity_request : Env R → String → String → Option (LoadedModel M) → Request M R

-- PREDICTIONS.labels(outcome="ok"), over the sources.
abbrev pub oks : List (String × String) → ℕ
oks [] = 0
oks ((source, outcome) ∷ l) = let n = oks l in if outcome == "ok" then suc n else n

module _ {M R : Type 0} (lib : Estimator M R) (clients : Clients) where
  unfoldable pub serve : List (Request M R) → World R → World R
  unfolding predict_raw predict_entity
  serve [] w = w
  serve (raw_request env features entity_id trace_id current ∷ requests) w =
      serve requests (predict_raw lib clients env features entity_id trace_id current w).1
  serve (entity_request env entity_id trace_id current ∷ requests) w =
      serve requests (predict_entity lib clients env entity_id trace_id current w).1

  pub record IsBalanced (w : World R) : Type 0 where
    pub rows : clients.store ≡ true → oks w.outcomes ≡ length w.rows + w.persist_failures
    pub events : clients.publisher ≡ true → oks w.outcomes ≡ length w.events + w.publish_failures

  one_more :
      {A : Type 0} (there done : Bool) (x : A) (xs xs' : List A) (n f f' : ℕ)
      → xs' ≡ xs ++ (if done then x ∷ [] else [])
      → f' ≡ f + (if there && not done then 1 else 0)
      → there ≡ true
      → n ≡ length xs + f
      → suc n ≡ length xs' + f'
  one_more there true x xs xs' n f f' p q t h =
      rw (p, q, t, length-append xs (x ∷ [])) (omega arith)
  one_more {A = A} there false x xs xs' n f f' p q t h =
      rw (p, q, t, length-append xs (◌++◌ {A = A} [] [])) (omega arith)

  module _ (env : Env R) (features : Dict String R) (entity_id : Option String)
      (source trace_id : String) where
    scored-IsBalanced :
        (meta : ModelMetadata) (r : Result R) (w : World R)
        → IsBalanced w
        → IsBalanced (scored lib clients env features entity_id source trace_id meta r w).1
    scored-IsBalanced meta (raise e) w b = unfold scored in b
    scored-IsBalanced meta (ok proba) w b =
        let a = recorded-Answered lib clients env features entity_id source trace_id meta proba w in
        record {
          rows = λ t. rw a.outcomes (
              one_more clients.store a.persisted _ w.rows _ (oks w.outcomes) w.persist_failures _
                a.rows a.persist_failures t (b.rows t));
          events = λ t. rw a.outcomes (
              one_more clients.publisher a.sent _ w.events _ (oks w.outcomes) w.publish_failures _
                a.events a.publish_failures t (b.events t));
        }

    predict-IsBalanced :
        (current : Option (LoadedModel M)) (w : World R)
        → IsBalanced w
        → IsBalanced (predict lib clients env features entity_id source trace_id current w).1
    unfolding predict
    predict-IsBalanced none w b = record { rows = b.rows; events = b.events }
    predict-IsBalanced (some loaded) w b =
        scored-IsBalanced loaded.metadata
          (score lib clients loaded.model (columns_of higgs_feature_names features)) w b

  fetched-IsBalanced :
      (env : Env R) (entity_id trace_id : String) (current : Option (LoadedModel M)) (w : World R)
      (r : Result (Option (Dict String R)))
      → IsBalanced w
      → IsBalanced (fetched lib clients env entity_id trace_id current w r).1
  unfolding fetched
  fetched-IsBalanced env entity_id trace_id current w (raise e) b = b
  fetched-IsBalanced env entity_id trace_id current w (ok none) b = record {
    rows = b.rows;
    events = b.events;
  }
  fetched-IsBalanced env entity_id trace_id current w (ok (some feats)) b =
      predict-IsBalanced env feats (some entity_id) "entity" trace_id current w b

  entity-IsBalanced :
      (env : Env R) (entity_id trace_id : String) (current : Option (LoadedModel M)) (w : World R)
      → IsBalanced w
      → IsBalanced (predict_entity lib clients env entity_id trace_id current w).1
  unfolding predict_entity
  entity-IsBalanced env entity_id trace_id current w b = elim (Bool-cases clients.features) [
    | inl q ↦
        simp q (fetched-IsBalanced env entity_id trace_id current w (get_features env.answer) b)
    | inr q ↦ simp q b
  ]

  -- Whatever requests come, whichever models serve them and whatever fails: the predictions that are
  -- counted as answered are as many as the rows that they added and the counted failures to store one,
  -- where there is a store; and as many as the events and the counted failures to publish one, where
  -- there is a publisher.
  pub serve-IsBalanced :
      (requests : List (Request M R)) (w : World R) → IsBalanced w → IsBalanced (serve requests w)
  unfolding serve predict_raw
  serve-IsBalanced [] w b = b
  serve-IsBalanced (raw_request env features entity_id trace_id current ∷ requests) w b =
      serve-IsBalanced requests _
        (predict-IsBalanced env features entity_id "raw" trace_id current w b)
  serve-IsBalanced (entity_request env entity_id trace_id current ∷ requests) w b =
      serve-IsBalanced requests _ (entity-IsBalanced env entity_id trace_id current w b)
