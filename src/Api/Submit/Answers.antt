-- ===== src/Api/Submit/Answers.antt =====
-- SubmitRequest of internal/api/handlers.go, on every path to an answer.
use go_key_pool_system.Prelude.{
  ℕ, ◌≡◌, ◌≢◌, refl, ap, String, Bool, true, false, none, some, ◌⊎◌, inl, inr, str_eq, Bool-cases,
  Option-cases, List, arith, ne_of_str_eq,
}
use go_key_pool_system.Db.Adapter.{Request}
use go_key_pool_system.Db.Table.{ok, err, DbError, is_taken, is_some, select_one, has}
use go_key_pool_system.Db.Requests
use go_key_pool_system.Api.Http.{HttpIn, Outcome, write_json, write_error, object}
use go_key_pool_system.Api.Server.{Server, Submission, Library, Call, request_to_response}
use go_key_pool_system.Api.Submit.{
  unless_empty, defaulted, build_record, save_request, accept, submit_request,
}
use go_key_pool_system.Api.Submit.Storing.{
  Stored, down, taken_id, known_key, offered-Stored, create-cases, answer-cases,
  get_by_idempotency_key-meets,
}
use go_key_pool_system.Api.Submit.Checks.{Fits, turned_down, passed, submit_request-Checked}

-- Why a submission is answered with 500: the database fails at the lookup, which is made for a key
-- only, or at the insertion, or has a row with the new ID.
pub data Fails (call : Call) (body : Submission) (s : Server) : Type 0 where
  no_lookup : body.idempotency_key ≢ "" → call.up 0 ≡ false → Fails call body s
  no_insertion : call.up 1 ≡ false → Fails call body s
  known_id :
      is_taken Requests.request_id (some call.new_id) s.db.requests ≡ true → Fails call body s

-- The answers to a submission.
pub data Answered (lib : Library) (call : Call) (r : HttpIn) (s : Server) (done : Outcome × Server)
    : Type 0 where
  refused :
      (status : ℕ) (message : String)
      → ((status ≡ 405) × (r.method ≢ "POST"))
        ⊎ ((status ≡ 400)
            × ((body : Submission) → lib.decode_submission r.body ≡ inr body → Fits body → ⊥))
      → done ≡ (write_error status message, s)
      → Answered lib call r s done
  failed :
      (message : String) (body : Submission)
      → lib.decode_submission r.body ≡ inr body
      → Fits body
      → Fails call body s
      → done ≡ (write_error 500 message, s)
      → Answered lib call r s done
  replayed :
      (body : Submission) (existing : Request)
      → lib.decode_submission r.body ≡ inr body
      → Requests.get_by_idempotency_key (call.up 0) body.idempotency_key s.db.requests
        ≡ ok (some existing)
      → existing.idempotency_key ≡ some body.idempotency_key
      → done ≡ (write_json 200 (object (request_to_response existing)), s)
      → Answered lib call r s done
  stored :
      (body : Submission)
      → lib.decode_submission r.body ≡ inr body
      → Fits body
      → Stored call (build_record lib call (defaulted body)) s done
      → Answered lib call r s done

save_request-Answered :
    (lib : Library) (call : Call) (r : HttpIn) (body : Submission) (s : Server)
    → lib.decode_submission r.body ≡ inr body
    → Fits body
    → is_taken Request.idempotency_key (unless_empty body.idempotency_key) s.db.requests ≡ false
    → Answered lib call r s (save_request call (build_record lib call (defaulted body)) s)
unfolding save_request build_record defaulted
save_request-Answered lib call r body s decoded fits unknown =
    let req = build_record lib call (defaulted body) in
    elim (create-cases (call.up 1) call.now req s.db.requests) [
      | inl (error, why, e) ↦
          let fails : Fails call body s = elim why [
            | down h ↦ no_insertion h
            | taken_id h ↦ known_id h
            | known_key h ↦ absurd (cc (h, unknown))
          ] in
          rw (save_request, ap (λ p. p.0) e, ap (λ p. p.1) e)
            (failed "failed to save request" body decoded fits fails refl)
      | inr (fresh, new, e) ↦
          rw (save_request, ap (λ p. p.0) e, ap (λ p. p.1) e)
            (stored body decoded fits (offered-Stored call req s fresh new))
    ]

failed-lookup :
    (up : Bool) (key : String) (requests : List Request) (e : DbError)
    → Requests.get_by_idempotency_key up key requests ≡ err e
    → up ≡ false
unfolding Requests.get_by_idempotency_key
failed-lookup false key requests e h = refl
failed-lookup true key requests e h =
    elim (Option-cases (select_one (has Request.idempotency_key key) requests)) [
      | inl none_there ↦ ground (arith, h, none_there)
      | inr (row, there) ↦ ground (arith, h, there)
    ]

-- A lookup that finds nothing is right.
found_nothing :
    (up : Bool) (key : String) (requests : List Request)
    → Requests.get_by_idempotency_key up key requests ≡ ok none
    → is_taken Request.idempotency_key (some key) requests ≡ false
unfolding Requests.get_by_idempotency_key
found_nothing false key requests h = ground (arith, h)
found_nothing true key requests h =
    elim (Option-cases (select_one (has Request.idempotency_key key) requests)) [
      | inl none_there ↦ ap is_some none_there
      | inr (row, there) ↦ ground (arith, h, there)
    ]

accept-Answered :
    (lib : Library) (call : Call) (r : HttpIn) (body : Submission) (s : Server)
    → lib.decode_submission r.body ≡ inr body
    → Fits body
    → Answered lib call r s (accept lib call (defaulted body) s)
unfolding accept defaulted
accept-Answered lib call r body s decoded fits =
    elim (Bool-cases (str_eq body.idempotency_key "")) [
      | inl empty ↦
          rw (empty, accept) (save_request-Answered lib call r body s decoded fits (rw empty refl))
      | inr keyed ↦
          elim (answer-cases
            (Requests.get_by_idempotency_key (call.up 0) body.idempotency_key s.db.requests)) [
              | inl (e, failure) ↦
                  rw (keyed, failure, accept)
                    (failed "database error" body decoded fits
                      (no_lookup (ne_of_str_eq _ "" keyed) (failed-lookup _ _ _ e failure)) refl)
              | inr (none, e) ↦
                  rw (keyed, e, accept)
                    (save_request-Answered lib call r body s decoded fits
                      (rw keyed (found_nothing _ body.idempotency_key s.db.requests e)))
              | inr (some existing, e) ↦
                  rw (keyed, e, accept)
                    (replayed body existing decoded e
                      (get_by_idempotency_key-meets (call.up 0) body.idempotency_key s.db.requests
                        existing e)
                      refl)
            ]
    ]

-- SubmitRequest does one of four things. It refuses a method other than POST with 405, and a body
-- that does not decode, or lacks a method or a URL, or has a priority outside 0 to 3, with 400, and
-- changes nothing. Where the database fails at the lookup of a key or at the insertion, or has a row
-- with the new ID, it answers 500 and changes nothing. Where a request with the same idempotency key is found it answers 200 with that request,
-- and changes nothing. Otherwise the request is stored, so that GetRequest finds it under its new ID,
-- no request with its idempotency key was there, and the queue is given its item: the answer is 202
-- where Enqueue accepts the item, and 503 where it does not, with the queue as before but the row
-- kept.
pub submit_request-Answered :
    (lib : Library) (call : Call) (r : HttpIn) (s : Server)
    → Answered lib call r s (submit_request lib call r s)
submit_request-Answered lib call r s = elim (submit_request-Checked lib call r s) [
  | turned_down status message reason e ↦ refused status message reason e
  | passed body decoded fits e ↦ rw e (accept-Answered lib call r body s decoded fits)
]
