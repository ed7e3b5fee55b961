-- ===== src/Api/Submit.antt =====
-- SubmitRequest, GetRequestStatus and HealthCheck of internal/api/handlers.go.
pub mod Storing
pub mod Checks
pub mod Answers
pub mod Known
pub mod Replay
pub mod Race
use go_key_pool_system.Prelude.{
  ℕ, String, Bool, true, false, ◌||◌, not, Option, none, some, List, [], ◌∷◌, ◌⊎◌, inl, inr,
  if◌then◌else◌, str_eq, ◌==◌, length,
}
use go_key_pool_system.Prelude.Int.{ℤ, pos, ltb_ℤ, eqb_ℤ}
use go_key_pool_system.Prelude.Texts.{trim_prefix, before_first}
use go_key_pool_system.Db.Adapter.{Request, pending, priority_high, priority_normal, priority_low}
use go_key_pool_system.Db.Table.{Answer, ok, err}
use go_key_pool_system.Db.Requests
use go_key_pool_system.Db.Database.{Database}
use go_key_pool_system.Queue.Item.{Item}
use go_key_pool_system.Queue.Bounded.{QueueError, Queue, enqueue}
use go_key_pool_system.Api.Http.{HttpIn, Outcome, write_json, write_error, object, text}
use go_key_pool_system.Api.Server.{Server, Submission, Library, Call, request_to_response}
use Prim.Native.String.{◌++◌ as str_append}

unfoldable pub health_check : Server → Outcome × Server
health_check s = (write_json 200 (object (("status", text "ok") ∷ [])), s)

-- Default priority and default source.
unfoldable pub defaulted : Submission → Submission
defaulted body = record body {
  priority = if eqb_ℤ body.priority (pos 0) then priority_normal else body.priority;
  source = if str_eq body.source "" then "manual" else body.source;
}

-- &x where x is not "", and nil otherwise.
abbrev pub unless_empty : String → Option String
unless_empty s = if str_eq s "" then none else some s

-- "Build request record"
unfoldable pub build_record : Library → Call → Submission → Request
build_record lib call body = record {
  id = call.new_id;
  idempotency_key = unless_empty body.idempotency_key;
  source = body.source;
  priority = body.priority;
  method = lib.to_upper body.method;
  destination_url = body.url;
  headers = if length body.headers == 0 then none else some (lib.marshal_headers body.headers);
  payload = unless_empty body.payload;
  status = pending;
  assigned_key_id = none;
  attempts = 0;
  last_error = none;
  response_status = none;
  response_body = none;
  created_at = 0;
  updated_at = 0;
  completed_at = none;
}

abbrev pub item_for : ℕ → Request → Item
item_for now req = record {
  entry = record { request_id = req.id; priority = req.priority; created_at = now };
  index = pos 0;
}

-- "Enqueue", and the answer.
unfoldable pub enqueue_request : ℕ → Request → Server → Outcome × Server
enqueue_request now req s =
    let (refusal, queue) = enqueue s.queue (item_for now req) in
    elim refusal [
      | some e ↦ (write_error 503 "queue is full", record s { queue = queue })
      | none ↦ (write_json 202 (object (request_to_response req)), record s { queue = queue })
    ]

-- "Save to DB", and what follows.
unfoldable pub save_request : Call → Request → Server → Outcome × Server
save_request call req s =
    let (answer, requests) = Requests.create (call.up 1) call.now req s.db.requests in
    let saved = record s { db = record s.db { requests = requests } } in
    elim answer [
      | err e ↦ (write_error 500 "failed to save request", saved)
      | ok u ↦ enqueue_request call.now req saved
    ]

-- From the idempotency check on, with the defaults filled in.
unfoldable pub accept : Library → Call → Submission → Server → Outcome × Server
accept lib call body s =
    if str_eq body.idempotency_key ""
    then save_request call (build_record lib call body) s
    else elim (Requests.get_by_idempotency_key (call.up 0) body.idempotency_key s.db.requests) [
      | err e ↦ (write_error 500 "database error", s)
      | ok found ↦ elim found [
        | some existing ↦ (write_json 200 (object (request_to_response existing)), s)
        | none ↦ save_request call (build_record lib call body) s
      ]
    ]

unfoldable pub submit_request : Library → Call → HttpIn → Server → Outcome × Server
submit_request lib call r s =
    if not (str_eq r.method "POST")
    then (write_error 405 "method not allowed", s)
    else elim (lib.decode_submission r.body) [
      | inl error ↦ (write_error 400 (str_append "invalid JSON: " error), s)
      | inr body ↦
          let full = defaulted body in
          if str_eq body.method "" || str_eq body.url ""
          then (write_error 400 "method and url are required", s)
          else if ltb_ℤ full.priority priority_high || ltb_ℤ priority_low full.priority
          then (write_error 400 "priority must be 1 (high), 2 (normal), or 3 (low)", s)
          else accept lib call full s
    ]

unfoldable pub extract_path_param : String → String → String
extract_path_param path prefix = before_first (trim_prefix path prefix) "/"

-- GetRequest never returns nil without an error, so that the 404 of the source is not reached.
unfoldable pub get_request_status : Call → HttpIn → Server → Outcome × Server
get_request_status call r s =
    let id = extract_path_param r.path "/api/requests/" in
    if not (str_eq r.method "GET")
    then (write_error 405 "method not allowed", s)
    else if str_eq id ""
    then (write_error 400 "request id required", s)
    else elim (Requests.get (call.up 0) id s.db.requests) [
      | err e ↦ (write_error 500 "database error", s)
      | ok req ↦ (write_json 200 (object (request_to_response req)), s)
    ]
