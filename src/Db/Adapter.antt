-- ===== src/Db/Adapter.antt =====
-- internal/db/adapter.go: the domain types, and the writes of DBAdapter as values. A `*T` that may be
-- nil is an `Option`; a time is a number of nanoseconds. The statuses and event types are written
-- by their constants only, and are enumerations.
use go_key_pool_system.Prelude.{ℕ, String, Bool, Option}
use go_key_pool_system.Prelude.Int.{ℤ, pos}

pub data CircuitState : Type 0 where
  closed open_state half_open : CircuitState

pub data RequestStatus : Type 0 where
  pending processing success failed queued : RequestStatus

pub data EventType : Type 0 where
  created deleted circuit_opened circuit_closed circuit_half_opened rate_limited key_failed :
      EventType
  key_recovered : EventType

abbrev pub priority_high : ℤ
priority_high = pos 1

abbrev pub priority_normal : ℤ
priority_normal = pos 2

abbrev pub priority_low : ℤ
priority_low = pos 3

pub record ApiKey : Type 0 where
  pub id : String
  pub name : String
  pub key_encrypted : String
  pub weight : ℤ
  pub is_healthy : Bool
  pub failure_count : ℕ
  pub circuit_state : CircuitState
  pub last_used_at : Option ℕ
  pub rate_limit_per_minute : ℤ
  pub rate_limit_per_day : ℤ
  pub concurrent_limit : ℤ
  pub current_concurrent : ℤ
  pub created_at : ℕ
  pub updated_at : ℕ

pub record Request : Type 0 where
  pub id : String
  pub idempotency_key : Option String
  pub source : String
  pub priority : ℤ
  pub method : String
  pub destination_url : String
  pub headers : Option String
  pub payload : Option String
  pub status : RequestStatus
  pub assigned_key_id : Option String
  pub attempts : ℕ
  pub last_error : Option String
  pub response_status : Option ℤ
  pub response_body : Option String
  pub created_at : ℕ
  pub updated_at : ℕ
  pub completed_at : Option ℕ

-- A KeyEvent is given by the fields that the callers fill in.
pub record KeyEvent : Type 0 where
  pub id : String
  pub key_id : String
  pub event_type : EventType
  pub message : Option String

-- The calls of DBAdapter whose error the caller drops, so that nothing of the caller's depends on
-- their outcome.
pub data Write : Type 0 where
  create_key_event : KeyEvent → Write
  update_api_key_last_used : String → Write
  update_api_key_health : String → Bool → ℕ → CircuitState → Write
  update_request_status : String → RequestStatus → String → ℕ → Write
  update_request_result : String → RequestStatus → ℤ → String → String → ℕ → Write
