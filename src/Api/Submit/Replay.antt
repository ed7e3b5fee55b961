-- ===== src/Api/Submit/Replay.antt =====
-- Idempotency keys in SubmitRequest of internal/api/handlers.go: what a second submission with the
-- same key meets, whatever happened to the table of requests in between.
use go_key_pool_system.Prelude.{
  ◌≡◌, ◌≢◌, ◌∙◌, refl, sym, ap, subst, true, some, ◌⊎◌, inl, inr, arith, str_eq_ne,
}
use go_key_pool_system.Db.Adapter.{Request}
use go_key_pool_system.Db.Table.{ok}
use go_key_pool_system.Db.Requests
use go_key_pool_system.Db.Requests.History.{RequestHistory, table_after}
use go_key_pool_system.Api.Submit.Known.{
  IsKnown, new-IsKnown, found-IsKnown, IsKnown-found, table_after-IsKnown,
}
use go_key_pool_system.Api.Http.{HttpIn, write_json, object, code}
use go_key_pool_system.Api.Server.{Server, Submission, Library, Call, request_to_response}
use go_key_pool_system.Api.Submit.{defaulted, build_record, accept, submit_request}
use go_key_pool_system.Api.Submit.Storing.{get_by_idempotency_key-meets}
use go_key_pool_system.Api.Submit.Checks.{same_body, turned_down, passed, submit_request-Checked}
use go_key_pool_system.Api.Submit.Answers.{
  refused, failed, replayed, stored, submit_request-Answered,
}

pub key_of_record :
    (lib : Library) (call : Call) (body : Submission)
    → body.idempotency_key ≢ ""
    → (Requests.inserted call.now (build_record lib call (defaulted body))).idempotency_key
      ≡ some body.idempotency_key
unfolding Requests.inserted build_record defaulted
key_of_record lib call body keyed = rw (str_eq_ne body.idempotency_key "" keyed) refl

-- A submission that was answered with 200, 202 or 503 has its key in the table.
answered-IsKnown :
    (lib : Library) (call : Call) (r : HttpIn) (s : Server) (body : Submission)
    → lib.decode_submission r.body ≡ inr body
    → body.idempotency_key ≢ ""
    → (code (submit_request lib call r s).0 ≡ 200)
      ⊎ (code (submit_request lib call r s).0 ≡ 202)
      ⊎ (code (submit_request lib call r s).0 ≡ 503)
    → IsKnown body.idempotency_key (submit_request lib call r s).1.db.requests
answered-IsKnown lib call r s body decoded keyed took =
    elim (submit_request-Answered lib call r s) [
      | refused status message reason e ↦ absurd (omega (arith, ap (λ p. code p.0) e))
      | failed message body decoded fits why e ↦ absurd (omega (arith, ap (λ p. code p.0) e))
      | replayed other existing decoded_too found match e ↦ rw (ap (λ p. p.1) e) (
          subst (λ b. IsKnown b.idempotency_key s.db.requests)
            (same_body lib r.body other body decoded_too decoded)
            (found-IsKnown (call.up 0) s.db.requests other.idempotency_key existing found))
      | stored other decoded_too fits kept ↦
          let same : other ≡ body = same_body lib r.body other body decoded_too decoded in
          let keyed_row : (Requests.inserted call.now
                (build_record lib call (defaulted other))).idempotency_key
              ≡ some body.idempotency_key =
            subst
              (λ b.
                (Requests.inserted call.now (build_record lib call (defaulted b))).idempotency_key
                ≡ some body.idempotency_key)
              (sym same) (key_of_record lib call body keyed) in
          rw kept.kept (new-IsKnown s.db.requests _ body.idempotency_key keyed_row)
    ]

accept-replays :
    (lib : Library) (call : Call) (body : Submission) (s : Server) (existing : Request)
    → body.idempotency_key ≢ ""
    → call.up 0 ≡ true
    → Requests.get_by_idempotency_key true body.idempotency_key s.db.requests ≡ ok (some existing)
    → accept lib call (defaulted body) s
      ≡ (write_json 200 (object (request_to_response existing)), s)
unfolding accept defaulted
accept-replays lib call body s existing keyed up found =
    rw (str_eq_ne body.idempotency_key "" keyed, up, found) refl

-- A second submission with the idempotency key of one that was answered with 200, 202 or 503, when
-- any calls have been made on the table of requests since and the database answers, changes nothing
-- and enqueues nothing: it is refused as invalid, or answered 200 with a stored request of that key.
-- This is so also after a 503, where the first one was not enqueued.
pub submit_request_once :
    (lib : Library) (call again : Call) (r later : HttpIn) (s after : Server)
    (body other : Submission) (calls : RequestHistory)
    → lib.decode_submission r.body ≡ inr body
    → lib.decode_submission later.body ≡ inr other
    → other.idempotency_key ≡ body.idempotency_key
    → body.idempotency_key ≢ ""
    → (code (submit_request lib call r s).0 ≡ 200)
      ⊎ (code (submit_request lib call r s).0 ≡ 202)
      ⊎ (code (submit_request lib call r s).0 ≡ 503)
    → after.db.requests ≡ table_after calls (submit_request lib call r s).1.db.requests
    → again.up 0 ≡ true
    → ((submit_request lib again later after).1 ≡ after)
      × ((code (submit_request lib again later after).0 ≡ 400)
          ⊎ (code (submit_request lib again later after).0 ≡ 405)
          ⊎ ((existing : Request) × (existing.idempotency_key ≡ some body.idempotency_key)
              × ((submit_request lib again later after).0
                  ≡ write_json 200 (object (request_to_response existing)))))
submit_request_once lib call again r later s after body other calls decoded decoded_later same keyed
      took since up =
    elim (submit_request-Checked lib again later after) [
      | turned_down status message reason e ↦ (
        ap (λ p. p.1) e,
        elim reason [
          | inl (is_405, h) ↦ inr (inl (ap (λ p. code p.0) e ∙ is_405))
          | inr (is_400, h) ↦ inl (ap (λ p. code p.0) e ∙ is_400)
        ],
      )
      | passed read decoded_read fits e ↦
          let key : read.idempotency_key ≡ body.idempotency_key =
            ap (λ b. b.idempotency_key)
              (same_body lib later.body read other decoded_read decoded_later)
            ∙ same in
          let known : IsKnown read.idempotency_key after.db.requests =
            subst (λ k. IsKnown k after.db.requests) (sym key)
              (subst (IsKnown body.idempotency_key) (sym since) (
                table_after-IsKnown calls (submit_request lib call r s).1.db.requests
                  body.idempotency_key (answered-IsKnown lib call r s body decoded keyed took))) in
          let (existing, found) = IsKnown-found after.db.requests read.idempotency_key known in
          let done =
            e
            ∙ accept-replays lib again read after existing (λ empty. keyed (sym key ∙ empty)) up
                found in
          (
            ap (λ p. p.1) done,
            inr (
                inr (
                  existing,
                  get_by_idempotency_key-meets true read.idempotency_key after.db.requests existing
                        found
                      ∙ ap some key,
                  ap (λ p. p.0) done,
                )),
          )
    ]
