-- ===== src/Api/Http.antt =====
-- What the handlers of internal/api exchange with net/http, and writeJSON and writeError of
-- internal/api/helpers.go. A body is given as the Go value that is encoded.
use go_key_pool_system.Prelude.{ℕ, String, Bool, Option, List, [], ◌∷◌}
use go_key_pool_system.Prelude.Int.{ℤ}
use go_key_pool_system.Db.Adapter.{CircuitState, RequestStatus}
use go_key_pool_system.Keypool.Health.{KeyHealth}

-- A request that has come in: `authorization` is "" where the header is missing.
pub record HttpIn : Type 0 where
  pub method : String
  pub path : String
  pub authorization : String
  pub body : String

-- A value of a map[string]any.
pub data Field : Type 0 where
  text : String → Field
  int : ℤ → Field
  flag : Bool → Field
  time : ℕ → Field
  state_of : CircuitState → Field
  status_of : RequestStatus → Field

abbrev pub Fields : Type 0
Fields = List (String × Field)

pub data Body : Type 0 where
  object : Fields → Body
  array : List Fields → Body
  settings : (String → Option String) → Body
  pool_health : ℕ → ℕ → List KeyHealth → Body

pub record Response : Type 0 where
  pub status : ℕ
  pub body : Body

-- A handler either answers or panics; net/http then closes the connection with no answer.
pub data Outcome : Type 0 where
  responded : Response → Outcome
  panicked : Outcome

abbrev pub write_json : ℕ → Body → Outcome
write_json status body = responded (record { status = status; body = body })

abbrev pub write_error : ℕ → String → Outcome
write_error status message = write_json status (object (("error", text message) ∷ []))

-- The status of the answer; a panic has none.
abbrev pub code : Outcome → ℕ
code (responded response) = response.status
code panicked = 0
