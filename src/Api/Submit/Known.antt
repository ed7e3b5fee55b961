-- ===== src/Api/Submit/Known.antt =====
-- The idempotency keys in the table of requests of internal/db/sqlite_requests.go, as SubmitRequest
-- finds them, and that no call takes one away.
use go_key_pool_system.Prelude.{
  ℕ, ◌≡◌, ◌∙◌, refl, sym, ap, String, Bool, true, false, some, List, [], ◌∷◌, ◌++◌, inl, inr, arith,
  str_eq_self, Option-cases,
}
use go_key_pool_system.Db.Adapter.{Request}
use go_key_pool_system.Db.Table.{ok, select_one, update_where, has, holds, is_some, is_taken, exec}
use go_key_pool_system.Db.Table.Laws.{select_one-append, is_taken-update}
use go_key_pool_system.Db.Scan.{scan_request}
use go_key_pool_system.Db.Requests
use go_key_pool_system.Db.Requests.History.{RequestHistory, table_after}
use go_key_pool_system.Api.Http.{code}
use go_key_pool_system.Api.Submit.Storing.{true-false, create-cases}

-- A request with this idempotency key is in the table.
abbrev pub IsKnown : String → List Request → Type 0
IsKnown key requests = is_taken Request.idempotency_key (some key) requests ≡ true

update-IsKnown :
    (up : Bool) (id : String) (f : Request → Request) (requests : List Request) (key : String)
    → ((req : Request) → (f req).idempotency_key ≡ req.idempotency_key)
    → IsKnown key requests
    → IsKnown key (exec up (update_where (Requests.with_id id) f requests) requests).1
update-IsKnown false id f requests key keeps known = known
update-IsKnown true id f requests key keeps known =
    is_taken-update Request.idempotency_key (some key) (Requests.with_id id) f requests keeps
    ∙ known

append-IsKnown :
    (requests others : List Request) (key : String)
    → IsKnown key requests
    → IsKnown key (requests ++ others)
append-IsKnown requests others key known =
    ground (arith, select_one-append (has Request.idempotency_key key) requests others, known)

create-IsKnown :
    (up : Bool) (now : ℕ) (req : Request) (requests : List Request) (key : String)
    → IsKnown key requests
    → IsKnown key (Requests.create up now req requests).1
create-IsKnown up now req requests key known = elim (create-cases up now req requests) [
  | inl (error, why, e) ↦ rw (ap (λ p. p.1) e) known
  | inr (fresh, new, e) ↦
      rw (ap (λ p. p.1) e) (append-IsKnown requests (Requests.inserted now req ∷ []) key known)
]

-- A new row makes its key known.
pub new-IsKnown :
    (requests : List Request) (row : Request) (key : String)
    → row.idempotency_key ≡ some key
    → IsKnown key (requests ++ row ∷ [])
new-IsKnown requests row key e =
    let last : has Request.idempotency_key key row ≡ true = ap (holds key) e ∙ str_eq_self key in
    ground (arith, select_one-append (has Request.idempotency_key key) requests (row ∷ []), last)

-- GetRequestByIdempotencyKey finds what is known, and nothing else.
pub found-IsKnown :
    (up : Bool) (requests : List Request) (key : String) (existing : Request)
    → Requests.get_by_idempotency_key up key requests ≡ ok (some existing)
    → IsKnown key requests
unfolding Requests.get_by_idempotency_key
found-IsKnown false requests key existing e = ground (arith, e)
found-IsKnown true requests key existing e =
    elim (Option-cases (select_one (has Request.idempotency_key key) requests)) [
      | inl h ↦ ground (arith, e, h)
      | inr (row, h) ↦ ap is_some h
    ]

pub IsKnown-found :
    (requests : List Request) (key : String)
    → IsKnown key requests
    → (existing : Request) × (Requests.get_by_idempotency_key true key requests
        ≡ ok (some existing))
unfolding Requests.get_by_idempotency_key
IsKnown-found requests key known =
    elim (Option-cases (select_one (has Request.idempotency_key key) requests)) [
      | inl h ↦ absurd (true-false (sym known ∙ ap is_some h))
      | inr (row, h) ↦ (scan_request row, rw h refl)
    ]

-- What is known stays so.
carry_out-IsKnown :
    (up : Bool) (now : ℕ) (call : Requests.RequestCall) (requests : List Request) (key : String)
    → IsKnown key requests
    → IsKnown key (Requests.carry_out up now call requests).1
unfolding Requests.carry_out Requests.update_status Requests.update_result
carry_out-IsKnown up now (Requests.create_call req) requests key known =
    create-IsKnown up now req requests key known
carry_out-IsKnown up now (Requests.status_call id status assigned attempts) requests key known =
    update-IsKnown up id (Requests.with_status now status assigned attempts) requests key
      (λ req. refl) known
carry_out-IsKnown up now (Requests.result_call id status code body error completed) requests key
      known =
    update-IsKnown up id (Requests.with_result now status code body error completed) requests key
      (λ req. refl) known

pub table_after-IsKnown :
    (calls : RequestHistory) (requests : List Request) (key : String)
    → IsKnown key requests
    → IsKnown key (table_after calls requests)
table_after-IsKnown [] requests key known = known
table_after-IsKnown ((up, now, call) ∷ calls) requests key known =
    table_after-IsKnown calls (Requests.carry_out up now call requests).1 key
      (carry_out-IsKnown up now call requests key known)
