-- ===== src/Api/Server.antt =====
-- Server of internal/api/handlers.go, and what its handlers call that is not in this repository or
-- is not in this part of it: the decoders of encoding/json, which give an error's text or the
-- fields of the body, strings.ToUpper and EqualFold, crypto.Encrypt, and ORDER BY.
use go_key_pool_system.Prelude.{ℕ, String, Bool, Option, none, some, List, [], ◌∷◌, ◌++◌, ◌⊎◌}
use go_key_pool_system.Prelude.Int.{ℤ, pos}
use go_key_pool_system.Db.Adapter.{ApiKey, Request}
use go_key_pool_system.Db.Database.{Database}
use go_key_pool_system.Keypool.Manager.{Manager}
use go_key_pool_system.Queue.Bounded.{Queue}
use go_key_pool_system.Api.Http.{Fields, Field, text, int, flag, time, state_of, status_of}

pub record Server : Type 0 where
  pub db : Database
  pub queue : Queue
  pub pool : Manager

-- The body of SubmitRequest: what is missing from the JSON is "", 0 or empty.
pub record Submission : Type 0 where
  pub idempotency_key : String
  pub source : String
  pub priority : ℤ
  pub method : String
  pub url : String
  pub headers : List (String × String)
  pub payload : String

-- The body of AddKey.
pub record NewKey : Type 0 where
  pub name : String
  pub key : String
  pub weight : ℤ
  pub rate_limit_per_minute : ℤ
  pub rate_limit_per_day : ℤ
  pub concurrent_limit : ℤ

-- The settings of UpdateConfig's body come in the order in which Go ranges over them.
pub record Library : Type 0 where
  pub decode_submission : String → String ⊎ Submission
  pub decode_key : String → String ⊎ NewKey
  pub decode_weight : String → String ⊎ ℤ
  pub decode_settings : String → String ⊎ List (String × String)
  pub marshal_headers : List (String × String) → String
  pub to_upper : String → String
  pub equal_fold : String → String → Bool
  pub encrypt : String → String ⊎ String
  pub order_keys : (ApiKey → ApiKey → Bool) → List ApiKey → List ApiKey

-- What differs from call to call: a new UUID, the time, and whether the driver answers the call
-- number `n` of the database.
pub record Call : Type 0 where
  pub new_id : String
  pub now : ℕ
  pub up : ℕ → Bool

-- A field that is there where the pointer is not nil.
abbrev optional : {A : Type 0} → String → (A → Field) → Option A → Fields
optional name make none = []
optional name make (some a) = (name, make a) ∷ []

unfoldable pub request_to_response : Request → Fields
request_to_response req =
    ("id", text req.id)
    ∷ ("source", text req.source)
    ∷ ("priority", int req.priority)
    ∷ ("method", text req.method)
    ∷ ("url", text req.destination_url)
    ∷ ("status", status_of req.status)
    ∷ ("attempts", int (pos req.attempts))
    ∷ ("created_at", time req.created_at)
    ∷ ("updated_at", time req.updated_at)
    ∷ (optional "idempotency_key" text req.idempotency_key
        ++ optional "assigned_key_id" text req.assigned_key_id
        ++ optional "response_status" int req.response_status
        ++ optional "response_body" text req.response_body
        ++ optional "last_error" text req.last_error
        ++ optional "completed_at" time req.completed_at)

unfoldable pub key_to_response : ApiKey → Fields
key_to_response k =
    ("id", text k.id)
    ∷ ("name", text k.name)
    ∷ ("weight", int k.weight)
    ∷ ("is_healthy", flag k.is_healthy)
    ∷ ("failure_count", int (pos k.failure_count))
    ∷ ("circuit_state", state_of k.circuit_state)
    ∷ ("rate_limit_per_minute", int k.rate_limit_per_minute)
    ∷ ("rate_limit_per_day", int k.rate_limit_per_day)
    ∷ ("concurrent_limit", int k.concurrent_limit)
    ∷ ("current_concurrent", int k.current_concurrent)
    ∷ ("created_at", time k.created_at)
    ∷ ("updated_at", time k.updated_at)
    ∷ optional "last_used_at" time k.last_used_at
