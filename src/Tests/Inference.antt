-- ===== src/Tests/Inference.antt =====
-- The inference API with a model that answers 7, a feature server with one column each, and a database
-- that refuses the row.
use agentic_ml_engineering_l.Base.{
  Result, ℕ, String, true, Option, none, some, List, [], ◌∷◌, ◌≡◌, refl, ◌↔◌, ok, raise,
  database_error, other_exception, leb,
}
use agentic_ml_engineering_l.Schemas.Features.{higgs_feature_names}
use agentic_ml_engineering_l.Inference.{LoadedModel}
use agentic_ml_engineering_l.Inference.Model.{ModelCache, Serves, new_cache, version_of}
use agentic_ml_engineering_l.Inference.Server.{
  Settings, Event, started, waited, posted, live, allowed, live-Serves,
}
use agentic_ml_engineering_l.Inference.Features.{body, get_features}
use agentic_ml_engineering_l.Inference.Service.{Estimator, Clients, Env, World, predict_entity}
use agentic_ml_engineering_l.Inference.Service.Answered.{Answered, predict_entity-Answered}
use agentic_ml_engineering_l.Inference.Service.Accounts.{
  Request, entity_request, raw_request, serve, IsBalanced, serve-IsBalanced,
}
use agentic_ml_engineering_l.Inference.Api.{
  Health, IsReady, ready_status, ready_status-IsReady, Status, entity_status, predict_entity-Status,
}
use agentic_ml_engineering_l.Tests.Samples.{zeros}

abbrev version : String → LoadedModel String
version v = record {
  model = v;
  metadata = record {
    name = "higgs";
    alias = "champion";
    version = v;
    run_id = none;
    git_sha = none;
    dataset_fingerprint = none;
    feature_view = none;
    test_accuracy = none;
    loaded_at = 0;
  };
}

abbrev server_settings : Settings
server_settings = record { admin_token = "dev-admin-token"; model_refresh_seconds = 60 }

-- The third is a request without the token.
abbrev events : List (Event String)
events =
    started (ok (version "1"), 10)
    ∷ waited (raise (other_exception "registry"), 20)
    ∷ posted none (ok (version "3"), 25)
    ∷ posted (some "dev-admin-token") (ok (version "2"), 30)
    ∷ waited (ok (version "2"), 40)
    ∷ []

live-version : version_of (live server_settings events new_cache).current ≡ some "2"
unfolding live new_cache
live-version = refl

live-Serves_example :
    Serves (allowed server_settings events) none none 0 (live server_settings events new_cache)
live-Serves_example = live-Serves server_settings events

abbrev estimator : Estimator String ℕ
estimator = record {
  predict_proba = λ model vs. ok 7;
  float32 = λ v. v;
  at_least_half = λ p. leb 5 p;
}

abbrev all_clients : Clients
all_clients = record { features = true; store = true; publisher = true }

abbrev column_each : List String → List (List (Option (Result ℕ)))
column_each [] = []
column_each (n ∷ ns) = (some (ok 0) ∷ []) ∷ column_each ns

abbrev env : Env ℕ
env = record {
  answer = body higgs_feature_names (column_each higgs_feature_names);
  prediction_id = "p-1";
  latency_ms = 1200;
  predicted_at = 5;
  now = 6;
  commit_error = some (database_error "connection lost");
  publish_error = none;
}

abbrev world : World ℕ
world = record {
  rows = [];
  events = [];
  write_failures = 0;
  last_error = none;
  last_error_at = none;
  persist_failures = 0;
  publish_failures = 0;
  outcomes = [];
}

fetch : get_features env.answer ≡ ok (some (zeros higgs_feature_names))
unfolding get_features
fetch = refl

predict_entity-Answered_example :
    Answered estimator all_clients env
      (zeros higgs_feature_names)
      (some "higgs-7")
      "entity"
      "t"
      (version "2").metadata
      world
      (predict_entity estimator all_clients env "higgs-7" "t" (some (version "2")) world)
predict_entity-Answered_example =
    predict_entity-Answered estimator all_clients env "higgs-7" "t" (version "2") world
      (zeros higgs_feature_names) refl fetch (λ vs. (7, refl))

abbrev requests : List (Request String ℕ)
requests =
    entity_request env "higgs-7" "t" (some (version "2"))
    ∷ raw_request env (zeros higgs_feature_names) none "u" (some (version "2"))
    ∷ raw_request env [] none "v" none
    ∷ []

serve-IsBalanced_example :
    IsBalanced estimator all_clients (serve estimator all_clients requests world)
serve-IsBalanced_example =
    serve-IsBalanced estimator all_clients requests world
      record { rows = λ h. refl; events = λ h. refl }

abbrev health : Health
health = record {
  feast = true;
  ping = none;
  publisher = record {
    delivery_failures = 1;
    last_delivery_error = some "broker down";
    last_delivery_error_at = some 10;
    last_delivery_ok_at = some 9;
  };
  now = 50000000;
}

abbrev cache : ModelCache String
cache = record {
  current = some (version "2");
  last_error = none;
  last_error_at = none;
  refresh_count = 1;
}

ready_status-IsReady_example :
    (ready_status all_clients cache health ≡ 200) ↔ IsReady all_clients cache health
ready_status-IsReady_example = ready_status-IsReady all_clients cache health

predict_entity-Status_example :
    Status estimator all_clients env "higgs-7" "t"
      (entity_status (predict_entity estimator all_clients env "higgs-7" "t" none world).0)
      (get_features env.answer)
      (none)
predict_entity-Status_example =
    predict_entity-Status estimator all_clients env "higgs-7" "t" none world refl
