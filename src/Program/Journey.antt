-- ===== src/Program/Journey.antt =====
-- The way of a request through internal/api/handlers.go, internal/worker/worker.go and the tables of
-- internal/db: submitted, worked on round after round, and asked for.
use go_key_pool_system.Prelude.{
  ◌≤◌, ◌≡◌, ◌≢◌, refl, ap, String, true, none, inl, inr, List, arith, length, str_eq_ne,
}
use go_key_pool_system.Prelude.Int.{pos, ◌≤ℤ◌}
use go_key_pool_system.Prelude.Members.{All}
use go_key_pool_system.Db.Adapter.{Request}
use go_key_pool_system.Db.Table.{ok}
use go_key_pool_system.Db.Requests
use go_key_pool_system.Keypool.Manager.{get_key}
use go_key_pool_system.Worker.ProcessItem.{Worker, is_settled}
use go_key_pool_system.Worker.Lifecycle.{Round, serve_rounds}
use go_key_pool_system.Worker.Lifecycle.Settles.{serve_rounds-settles}
use go_key_pool_system.Api.Http.{HttpIn, write_json, object, code}
use go_key_pool_system.Api.Server.{Server, Library, Call, request_to_response}
use go_key_pool_system.Api.Submit.{
  submit_request, get_request_status, extract_path_param, build_record, defaulted,
}
use go_key_pool_system.Api.Submit.Answers.{
  refused, failed, replayed, stored, submit_request-Answered,
}

-- The row of a request that was answered with 202: it is new, and has had no attempt.
accepted-row :
    (lib : Library) (call : Call) (r : HttpIn) (s : Server)
    → code (submit_request lib call r s).0 ≡ 202
    → (row : Request) × (Requests.get true call.new_id (submit_request lib call r s).1.db.requests
        ≡ ok row)
      × (row.attempts ≡ 0)
unfolding Requests.inserted build_record defaulted
accepted-row lib call r s e = elim (submit_request-Answered lib call r s) [
  | refused status message reason h ↦
      let same = ap (λ p. code p.0) h in
      elim reason [
        | inl (other, why) ↦ absurd (omega (arith, e, same, other))
        | inr (other, why) ↦ absurd (omega (arith, e, same, other))
      ]
  | failed message body decoded fits why h ↦ absurd (omega (arith, e, ap (λ p. code p.0) h))
  | replayed body existing decoded found match h ↦ absurd (omega (arith, e, ap (λ p. code p.0) h))
  | stored body decoded fits kept ↦ (_, kept.readable, refl)
]

-- A poll for the status of a request that is there.
get_request_status-found :
    (call : Call) (r : HttpIn) (s : Server) (id : String) (req : Request)
    → r.method ≡ "GET"
    → extract_path_param r.path "/api/requests/" ≡ id
    → id ≢ ""
    → call.up 0 ≡ true
    → Requests.get true id s.db.requests ≡ ok req
    → get_request_status call r s ≡ (write_json 200 (object (request_to_response req)), s)
unfolding get_request_status
get_request_status-found call r s id req method path named up found =
    rw (method, path, str_eq_ne id "" named, up, found, get_request_status) refl

-- A request that SubmitRequest has answered with 202 is settled, and a poll for it says so, after as
-- many rounds of processItem on its row as retry_max_attempts says, and one at least, where each round
-- finds a key and its writes succeed.
pub accepted_request_settles :
    {F H : Type 0} (lib : Library) (call : Call) (r : HttpIn) (s : Server) (w : Worker F H)
    (rounds : List Round) (poll_call : Call) (poll : HttpIn)
    → code (submit_request lib call r s).0 ≡ 202
    → All (λ (round : Round). (get_key round.0 round.2).0 ≢ none) rounds
    → 1 ≤ length rounds
    → w.hot_cfg.retry_max_attempts ≤ℤ pos (length rounds)
    → poll.method ≡ "GET"
    → extract_path_param poll.path "/api/requests/" ≡ call.new_id
    → call.new_id ≢ ""
    → poll_call.up 0 ≡ true
    → let submitted = (submit_request lib call r s).1 in
      let later = record submitted { db = serve_rounds w call.new_id rounds submitted.db } in
      (req : Request) × (is_settled req.status ≡ true)
      × (get_request_status poll_call poll later
          ≡ (write_json 200 (object (request_to_response req)), later))
accepted_request_settles lib call r s w rounds poll_call poll e gives some_round enough method path
      named up =
    let submitted = (submit_request lib call r s).1 in
    let later = record submitted { db = serve_rounds w call.new_id rounds submitted.db } in
    let (row, there, none_yet) = accepted-row lib call r s e in
    let (req, found, settled) =
      serve_rounds-settles w call.new_id rounds submitted.db row there gives some_round
        (omega (arith, enough, none_yet)) in
    (
      req,
      settled,
      get_request_status-found poll_call poll later call.new_id req method path named up found,
    )
