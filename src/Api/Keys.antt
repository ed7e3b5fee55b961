-- ===== src/Api/Keys.antt =====
-- The handlers of internal/api/handlers.go for keys. logKeyEvent passes a nil context to
-- util.DBContext, and context.WithTimeout panics on it: what comes before has been done, and
-- neither the event nor the answer is written.
pub mod Panics
use go_key_pool_system.Prelude.{
  ℕ, String, Bool, true, false, ◌||◌, not, Option, none, some, List, [], ◌∷◌, ◌⊎◌, inl, inr, map,
  if◌then◌else◌, str_eq,
}
use go_key_pool_system.Prelude.Int.{ℤ, pos, leb_ℤ, eqb_ℤ}
use go_key_pool_system.Prelude.Texts.{trim_prefix, has_suffix, split_two}
use go_key_pool_system.Db.Adapter.{ApiKey, EventType, created, deleted, circuit_closed, closed}
use go_key_pool_system.Db.Table.{Answer, ok, err}
use go_key_pool_system.Db.Keys
use go_key_pool_system.Db.Settings.{EventRow, create_key_event}
use go_key_pool_system.Db.Database.{Database}
use go_key_pool_system.Api.Http.{
  HttpIn, Outcome, responded, panicked, write_json, write_error, object, array, text, int,
}
use go_key_pool_system.Api.Server.{Server, NewKey, Library, Call, key_to_response}
use go_key_pool_system.Api.Submit.{extract_path_param}
use Prim.Native.String.{◌++◌ as str_append}

-- A server whose keys are those that an operation leaves.
abbrev pub with_keys : List ApiKey → Server → Server
with_keys keys s = record s { db = record s.db { api_keys = keys } }

-- A write of the table of keys, its failure, and what follows a success.
abbrev pub after_write :
    Answer Unit × List ApiKey → String → (Server → Outcome × Server) → Server → Outcome × Server
after_write (ok u, keys) failure next s = next (with_keys keys s)
after_write (err e, keys) failure next s = (write_error 500 failure, with_keys keys s)

-- util.DBContext, for a parent that may be nil: nothing where context.WithTimeout panics.
pub data Context : Type 0 where
  of_request : Context

unfoldable pub db_context : Option Context → Option Context
db_context none = none
db_context (some parent) = some parent

-- The rows of key_events after logKeyEvent, unless it panics.
unfoldable pub log_key_event :
    Call → String → EventType → String → List EventRow → Option (List EventRow)
log_key_event call key_id event_type message events = elim (db_context none) [
  | none ↦ none
  | some ctx ↦
      some
        (create_key_event (call.up 1) call.now
          (record { id = ""; key_id = key_id; event_type = event_type; message = some message })
          events).1
]

-- logKeyEvent, and then the answer.
abbrev pub logged : Option (List EventRow) → Outcome → Server → Outcome × Server
logged none answer s = (panicked, s)
logged (some events) answer s = (answer, record s { db = record s.db { key_events = events } })

-- The defaults of AddKey.
abbrev pub or_default : ℤ → ℤ → ℤ
or_default x d = if eqb_ℤ x (pos 0) then d else x

unfoldable pub new_api_key : Call → NewKey → String → ApiKey
new_api_key call body encrypted = record {
  id = call.new_id;
  name = body.name;
  key_encrypted = encrypted;
  weight = or_default body.weight (pos 1);
  is_healthy = true;
  failure_count = 0;
  circuit_state = closed;
  last_used_at = none;
  rate_limit_per_minute = or_default body.rate_limit_per_minute (pos 60);
  rate_limit_per_day = or_default body.rate_limit_per_day (pos 10000);
  concurrent_limit = or_default body.concurrent_limit (pos 5);
  current_concurrent = pos 0;
  created_at = 0;
  updated_at = 0;
}

unfoldable pub add_key : Library → Call → HttpIn → Server → Outcome × Server
add_key lib call r s =
    if not (str_eq r.method "POST")
    then (write_error 405 "method not allowed", s)
    else elim (lib.decode_key r.body) [
      | inl error ↦ (write_error 400 (str_append "invalid JSON: " error), s)
      | inr body ↦
          if str_eq body.name "" || str_eq body.key ""
          then (write_error 400 "name and key are required", s)
          else elim (lib.encrypt body.key) [
            | inl error ↦ (write_error 500 "failed to encrypt key", s)
            | inr encrypted ↦
                let key = new_api_key call body encrypted in
                after_write (Keys.create (call.up 0) call.now key s.db.api_keys)
                  "failed to create key"
                  (logged (log_key_event call key.id created "key created via API" s.db.key_events)
                    (write_json 201 (object (key_to_response key))))
                  s
          ]
    ]

unfoldable pub list_keys : Library → Call → HttpIn → Server → Outcome × Server
list_keys lib call r s =
    if not (str_eq r.method "GET")
    then (write_error 405 "method not allowed", s)
    else elim (Keys.get_all lib.order_keys (call.up 0) s.db.api_keys) [
      | err e ↦ (write_error 500 "database error", s)
      | ok keys ↦ (write_json 200 (array (map key_to_response keys)), s)
    ]

unfoldable pub delete_key : Call → HttpIn → Server → Outcome × Server
delete_key call r s =
    let id = extract_path_param r.path "/admin/keys/" in
    if not (str_eq r.method "DELETE")
    then (write_error 405 "method not allowed", s)
    else if str_eq id ""
    then (write_error 400 "key id required", s)
    else if has_suffix id "/reset" || has_suffix id "/weight"
    then (write_error 405 "method not allowed", s)
    else after_write (Keys.delete (call.up 0) id s.db.api_keys) "failed to delete key"
        (logged (log_key_event call id deleted "key deleted via API" s.db.key_events)
          (write_json 200 (object (("status", text "deleted") ∷ []))))
        s

-- The id of /admin/keys/{id}/..., or nothing where it is not there.
unfoldable pub id_before_action : String → Option String
id_before_action path = elim (split_two (trim_prefix path "/admin/keys/") "/") [
  | none ↦ none
  | some parts ↦ if str_eq parts.0 "" then none else some parts.0
]

unfoldable pub update_key_weight : Library → Call → HttpIn → Server → Outcome × Server
update_key_weight lib call r s =
    if not (str_eq r.method "PUT")
    then (write_error 405 "method not allowed", s)
    else elim (id_before_action r.path) [
      | none ↦ (write_error 400 "key id required", s)
      | some id ↦ elim (lib.decode_weight r.body) [
        | inl error ↦ (write_error 400 (str_append "invalid JSON: " error), s)
        | inr weight ↦
            if leb_ℤ weight (pos 0)
            then (write_error 400 "weight must be positive", s)
            else after_write (Keys.update_weight (call.up 0) call.now id weight s.db.api_keys)
                "failed to update weight"
                (λ (changed : Server). (
                  write_json 200 (object (("id", text id) ∷ ("weight", int weight) ∷ [])),
                  changed,
                ))
                s
      ]
    ]

unfoldable pub reset_key_circuit : Call → HttpIn → Server → Outcome × Server
reset_key_circuit call r s =
    if not (str_eq r.method "POST")
    then (write_error 405 "method not allowed", s)
    else elim (id_before_action r.path) [
      | none ↦ (write_error 400 "key id required", s)
      | some id ↦
          after_write (Keys.reset_circuit (call.up 0) call.now id s.db.api_keys)
            "failed to reset circuit breaker"
            (logged
              (log_key_event call id circuit_closed "circuit breaker manually reset via API"
                s.db.key_events)
              (write_json 200 (object (("id", text id) ∷ ("status", text "circuit_reset") ∷ []))))
            s
    ]
