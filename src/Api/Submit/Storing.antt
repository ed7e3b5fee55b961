-- ===== src/Api/Submit/Storing.antt =====
-- What SubmitRequest finds in the table of requests, and what it adds to it.
use go_key_pool_system.Prelude.{
  ℕ, ◌≡◌, ◌∙◌, refl, sym, ap, String, Bool, true, false, Option, none, some, List, [], ◌∷◌, ◌++◌,
  ◌⊎◌, inl, inr, arith, str_eq_self, Bool-cases, Option-cases,
}
use go_key_pool_system.Db.Adapter.{Request}
use go_key_pool_system.Db.Table.{
  Answer, DbError, ok, err, unavailable, constraint, select_one, has, is_some, is_taken, query_row,
}
use go_key_pool_system.Db.Table.Laws.{select_one-append, select_one-meets, holds-value}
use go_key_pool_system.Db.Scan.{scan_request, scan_request_same}
use go_key_pool_system.Db.Requests
use go_key_pool_system.Queue.Item.{Item}
use go_key_pool_system.Queue.Bounded.{
  QueueError, Queue, enqueue, evict, admit, full, find_lowest_priority,
}
use go_key_pool_system.Api.Http.{Outcome, write_json, write_error, object}
use go_key_pool_system.Api.Server.{Server, Call, request_to_response}
use go_key_pool_system.Api.Submit.{item_for, enqueue_request}
use mathlib.Core.Option.{map as option_map}

-- The request is stored under its ID, is nothing that stood there, and has been offered to the queue.
pub record Stored (call : Call) (req : Request) (s : Server) (r : Outcome × Server) : Type 0 where
  pub kept : r.1 ≡ record s {
    db = record s.db { requests = s.db.requests ++ Requests.inserted call.now req ∷ [] };
    queue = (enqueue s.queue (item_for call.now req)).1;
  }
  pub readable : Requests.get true req.id r.1.db.requests ≡ ok (Requests.inserted call.now req)
  pub new_key : is_taken Request.idempotency_key req.idempotency_key s.db.requests ≡ false
  pub answered :
      ((enqueue s.queue (item_for call.now req)).0 ≡ none)
        × (r.0 ≡ write_json 202 (object (request_to_response req)))
      ⊎ (((e : QueueError) × ((enqueue s.queue (item_for call.now req)).0 ≡ some e))
          × (r.0 ≡ write_error 503 "queue is full")
          × (r.1.queue ≡ s.queue))

-- Neither is the other.
pub true-false : true ≡ false → ⊥
true-false e = ground arith

evict-refused :
    (q : Queue) (item : Item) (worst : Option Item) (e : QueueError)
    → (evict q item worst).0 ≡ some e
    → (evict q item worst).1 ≡ q
unfolding evict admit full
evict-refused q item none e h = refl
evict-refused q item (some worst) e h = ground arith

-- A refused item leaves the queue as it was.
enqueue-refused :
    (q : Queue) (item : Item) (e : QueueError)
    → (enqueue q item).0 ≡ some e
    → (enqueue q item).1 ≡ q
unfolding enqueue admit full
enqueue-refused q item e h = ground (arith, evict-refused q item (find_lowest_priority q.pq) e, h)

-- What GetRequest finds after the insertion of a new ID.
get-inserted :
    (row : Request) (requests : List Request)
    → is_taken Requests.request_id (some row.id) requests ≡ false
    → Requests.get true row.id (requests ++ row ∷ []) ≡ ok row
unfolding Requests.get query_row
get-inserted row requests fresh =
    let found : select_one (Requests.with_id row.id) (requests ++ row ∷ []) ≡ some row =
      select_one-append (Requests.with_id row.id) requests (row ∷ [])
      ∙ elim (Option-cases (select_one (Requests.with_id row.id) requests)) [
        | inl e ↦ rw (e, str_eq_self row.id) refl
        | inr (x, e) ↦ absurd (true-false (sym (ap is_some e) ∙ fresh))
      ] in
    rw found (ap ok (scan_request_same row))

pub offered-Stored :
    (call : Call) (req : Request) (s : Server)
    → is_taken Requests.request_id (some req.id) s.db.requests ≡ false
    → is_taken Request.idempotency_key req.idempotency_key s.db.requests ≡ false
    → Stored call req s (
        enqueue_request call.now req (record s {
          db = record s.db { requests = s.db.requests ++ Requests.inserted call.now req ∷ [] };
        }))
unfolding enqueue_request Requests.inserted
offered-Stored call req s fresh new =
    elim (Option-cases (enqueue s.queue (item_for call.now req)).0) [
      | inl e ↦
          rw (e, enqueue_request)
            (record {
              kept = refl;
              readable = get-inserted (Requests.inserted call.now req) s.db.requests fresh;
              new_key = new;
              answered = inl (e, refl);
            })
      | inr (error, e) ↦
          rw (e, enqueue_request)
            (record {
              kept = refl;
              readable = get-inserted (Requests.inserted call.now req) s.db.requests fresh;
              new_key = new;
              answered =
                  inr ((error, e), refl, enqueue-refused s.queue (item_for call.now req) error e);
            })
    ]

-- Why a row is not inserted: the database fails, or has its ID, or its idempotency key.
pub data Refusal (up : Bool) (req : Request) (requests : List Request) : Type 0 where
  down : up ≡ false → Refusal up req requests
  taken_id : is_taken Requests.request_id (some req.id) requests ≡ true → Refusal up req requests
  known_key :
      is_taken Request.idempotency_key req.idempotency_key requests ≡ true → Refusal up req requests

pub create-cases :
    (up : Bool) (now : ℕ) (req : Request) (requests : List Request)
    → ((e : DbError) × Refusal up req requests
        × (Requests.create up now req requests ≡ (err e, requests)))
      ⊎ ((is_taken Requests.request_id (some req.id) requests ≡ false)
          × (is_taken Request.idempotency_key req.idempotency_key requests ≡ false)
          × (Requests.create up now req requests
              ≡ (ok tt, requests ++ Requests.inserted now req ∷ [])))
unfolding Requests.create
create-cases false now req requests = inl (unavailable, down refl, refl)
create-cases true now req requests =
    elim (Bool-cases (is_taken Requests.request_id (some req.id) requests)) [
      | inl taken ↦ inl (constraint, taken_id taken, rw taken refl)
      | inr fresh ↦
          elim (Bool-cases (is_taken Request.idempotency_key req.idempotency_key requests)) [
            | inl taken ↦ inl (constraint, known_key taken, rw (fresh, taken) refl)
            | inr new ↦ inr (fresh, new, rw (fresh, new) refl)
          ]
    ]

pub answer-cases :
    {A : Type 0} (a : Answer A) → ((e : DbError) × (a ≡ err e)) ⊎ ((x : A) × (a ≡ ok x))
answer-cases (ok x) = inr (x, refl)
answer-cases (err e) = inl (e, refl)

abbrev found_in : Request → Answer (Option Request) → Request
found_in d (ok (some req)) = req
found_in d (ok none) = d
found_in d (err e) = d

found-row :
    (o : Option Request) (row existing : Request)
    → o ≡ some row
    → (elim o as (λ x. Answer (Option Request)) [
      | none ↦ ok none
      | some x ↦ ok (some (scan_request x))
    ])
      ≡ ok (some existing)
    → ok (some (scan_request row)) ≡ ok (some existing)
found-row none row existing e h = ground (arith, e)
found-row (some x) row existing e h = ap (λ o. ok (option_map scan_request o)) (sym e) ∙ h

-- GetRequestByIdempotencyKey gives a request with the key.
pub get_by_idempotency_key-meets :
    (up : Bool) (key : String) (requests : List Request) (existing : Request)
    → Requests.get_by_idempotency_key up key requests ≡ ok (some existing)
    → existing.idempotency_key ≡ some key
unfolding Requests.get_by_idempotency_key
get_by_idempotency_key-meets false key requests existing h = ground (arith, h)
get_by_idempotency_key-meets true key requests existing h =
    elim (Option-cases (select_one (has Request.idempotency_key key) requests)) [
      | inl e ↦ ground (arith, h, e)
      | inr (row, e) ↦
          let same : row ≡ existing =
            sym (scan_request_same row)
            ∙ ap (found_in row) (
                found-row (select_one (has Request.idempotency_key key) requests) row existing e
                  h) in
          ap (λ r. r.idempotency_key) (sym same)
          ∙ holds-value key row.idempotency_key
              (select_one-meets (has Request.idempotency_key key) requests row e)
    ]
