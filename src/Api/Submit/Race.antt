-- ===== src/Api/Submit/Race.antt =====
-- Two calls of SubmitRequest of internal/api/handlers.go that overlap: both have looked for their
-- idempotency key before either stored its request, so that each goes on with "Save to DB".
use go_key_pool_system.Prelude.{
  ℕ, ◌≡◌, ◌≢◌, ◌∙◌, refl, sym, ap, subst, String, some, inl, inr, Option-cases,
}
use go_key_pool_system.Db.Adapter.{Request}
use go_key_pool_system.Db.Database.{Database}
use go_key_pool_system.Db.Table.{is_taken}
use go_key_pool_system.Db.Requests
use go_key_pool_system.Db.Requests.History.{RequestHistory, table_after}
use go_key_pool_system.Queue.Bounded.{enqueue}
use go_key_pool_system.Api.Http.{write_error, code}
use go_key_pool_system.Api.Server.{Server, Submission, Library, Call}
use go_key_pool_system.Api.Submit.{defaulted, build_record, save_request, enqueue_request, item_for}
use go_key_pool_system.Api.Submit.Storing.{true-false, create-cases}
use go_key_pool_system.Api.Submit.Known.{IsKnown, new-IsKnown, table_after-IsKnown}
use go_key_pool_system.Api.Submit.Replay.{key_of_record}

enqueue_request-db :
    (now : ℕ) (req : Request) (s : Server) → (enqueue_request now req s).1.db ≡ s.db
unfolding enqueue_request
enqueue_request-db now req s = elim (Option-cases (enqueue s.queue (item_for now req)).0) [
  | inl e ↦ rw (e, enqueue_request) refl
  | inr (error, e) ↦ rw (e, enqueue_request) refl
]

-- A request that was saved has its key in the table.
save_request-IsKnown :
    (call : Call) (req : Request) (s : Server) (key : String)
    → (Requests.inserted call.now req).idempotency_key ≡ some key
    → code (save_request call req s).0 ≢ 500
    → IsKnown key (save_request call req s).1.db.requests
unfolding save_request
save_request-IsKnown call req s key keyed saved =
    elim (create-cases (call.up 1) call.now req s.db.requests) [
      | inl (error, why, e) ↦ absurd (saved (rw (ap (λ p. p.0) e, save_request) refl))
      | inr (fresh, new, e) ↦
          rw (ap (λ p. p.0) e, ap (λ p. p.1) e, save_request)
            (subst (λ (db : Database). IsKnown key db.requests)
              (sym (enqueue_request-db call.now req _))
              (new-IsKnown s.db.requests (Requests.inserted call.now req) key keyed))
    ]

-- Of two overlapping submissions with one idempotency key, the one that comes to "Save to DB" later,
-- when any calls have been made on the table of requests since the other was saved there, is answered
-- with 500 and changes nothing. It is not answered with the request of that key.
pub save_request_race :
    (lib : Library) (call again : Call) (s after : Server) (body other : Submission)
    (calls : RequestHistory)
    → body.idempotency_key ≢ ""
    → other.idempotency_key ≡ body.idempotency_key
    → code (save_request call (build_record lib call (defaulted body)) s).0 ≢ 500
    → after.db.requests
      ≡ table_after calls
          (save_request call (build_record lib call (defaulted body)) s).1.db.requests
    → save_request again (build_record lib again (defaulted other)) after
      ≡ (write_error 500 "failed to save request", after)
unfolding save_request Requests.inserted
save_request_race lib call again s after body other calls keyed same saved since =
    let req = build_record lib again (defaulted other) in
    let first =
      save_request-IsKnown call (build_record lib call (defaulted body)) s body.idempotency_key
        (key_of_record lib call body keyed) saved in
    let known : IsKnown body.idempotency_key after.db.requests =
      subst (IsKnown body.idempotency_key) (sym since)
        (table_after-IsKnown calls _ body.idempotency_key first) in
    let keyed_too : req.idempotency_key ≡ some body.idempotency_key =
      key_of_record lib again other (λ empty. keyed (sym same ∙ empty)) ∙ ap some same in
    elim (create-cases (again.up 1) again.now req after.db.requests) [
      | inl (error, why, e) ↦ rw (ap (λ p. p.0) e, ap (λ p. p.1) e, save_request) refl
      | inr (fresh, new, e) ↦ absurd (
          true-false (
            sym known
            ∙ ap (λ k. is_taken Request.idempotency_key k after.db.requests) (sym keyed_too)
            ∙ new))
    ]
