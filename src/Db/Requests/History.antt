-- ===== src/Db/Requests/History.antt =====
-- The table requests over any history of its operations: no two rows share an ID or an idempotency
-- key, no row is lost, and what was asked for is never rewritten.
use go_key_pool_system.Prelude.{
  ◌≡◌, ◌∙◌, refl, ap, ℕ, String, Bool, true, false, Option, some, List, [], ◌∷◌, inl, inr,
  Bool-cases, str_eq, if◌then◌else◌,
}
use go_key_pool_system.Prelude.Int.{ℤ}
use go_key_pool_system.Db.Adapter.{Request}
use go_key_pool_system.Db.Table.{select_one, update_where, is_taken, Unique, exec}
use go_key_pool_system.Db.Table.Laws.{
  or_else, select_one-append, select_one-update, Unique-update, Unique-append,
}
use go_key_pool_system.Db.Requests.{
  request_id, with_id, inserted, create, update_status, update_result, with_status, with_result,
  RequestCall, create_call, status_call, result_call, carry_out,
}
use mathlib.Core.Option.{map as option_map}

-- What a client asks for.
pub record Asked : Type 0 where
  pub id : String
  pub idempotency_key : Option String
  pub source : String
  pub priority : ℤ
  pub method : String
  pub destination_url : String
  pub headers : Option String
  pub payload : Option String
  pub created_at : ℕ

abbrev pub asked : Request → Asked
asked req = record {
  id = req.id;
  idempotency_key = req.idempotency_key;
  source = req.source;
  priority = req.priority;
  method = req.method;
  destination_url = req.destination_url;
  headers = req.headers;
  payload = req.payload;
  created_at = req.created_at;
}

-- No two requests share an ID or an idempotency key.
pub record IsKeyed (requests : List Request) : Type 0 where
  pub ids : Unique request_id requests
  pub idempotency : Unique Request.idempotency_key requests

-- A request of the one table is in the other, and asks for the same.
abbrev pub Keeps : List Request → List Request → Type 0
Keeps before after =
    (id : String) (req : Request)
    → select_one (with_id id) before ≡ some req
    → (later : Request) × (select_one (with_id id) after ≡ some later) × (asked later ≡ asked req)

record Carried (before after : List Request) : Type 0 where
  keyed : IsKeyed after
  kept : Keeps before after

same_table : (requests : List Request) → IsKeyed requests → Carried requests requests
same_table requests keyed = record { keyed = keyed; kept = λ id req e. (req, e, refl) }

update-Carried :
    (up : Bool) (id : String) (f : Request → Request) (requests : List Request)
    → ((req : Request) → asked (f req) ≡ asked req)
    → IsKeyed requests
    → Carried requests (exec up (update_where (with_id id) f requests) requests).1
update-Carried false id f requests keeps keyed = same_table requests keyed
update-Carried true id f requests keeps keyed = record {
  keyed = record {
    ids =
        Unique-update request_id (with_id id) f requests (λ req. ap (λ a. some a.id) (keeps req))
          keyed.ids;
    idempotency =
        Unique-update Request.idempotency_key (with_id id) f requests
          (λ req. ap Asked.idempotency_key (keeps req)) keyed.idempotency;
  };
  kept = λ j req e. (
    (if with_id id req then f req else req),
    select_one-update (with_id id) (with_id j) f requests (λ r. ap (λ a. str_eq a.id j) (keeps r))
        ∙ ap (option_map (λ r. if with_id id r then f r else r)) e,
    elim (Bool-cases (with_id id req)) [ inl h ↦ rw h (keeps req) | inr h ↦ rw h refl ],
  );
}

create-Carried :
    (up : Bool) (now : ℕ) (req : Request) (requests : List Request)
    → IsKeyed requests
    → Carried requests (create up now req requests).1
unfolding create inserted
create-Carried false now req requests keyed = same_table requests keyed
create-Carried true now req requests keyed =
    let id_taken : Bool = is_taken request_id (some req.id) requests in
    let key_taken : Bool = is_taken Request.idempotency_key req.idempotency_key requests in
    elim (Bool-cases id_taken) [
      | inl e ↦ rw e (same_table requests keyed)
      | inr e ↦ elim (Bool-cases key_taken) [
        | inl h ↦ rw (e, h) (same_table requests keyed)
        | inr h ↦
            rw (e, h)
              (record {
                keyed = record {
                  ids = Unique-append request_id requests (inserted now req) keyed.ids e;
                  idempotency =
                      Unique-append Request.idempotency_key requests (inserted now req)
                        keyed.idempotency h;
                };
                kept = λ j old f. (
                  old,
                  select_one-append (with_id j) requests (inserted now req ∷ [])
                      ∙ ap (λ o. or_else o (select_one (with_id j) (inserted now req ∷ []))) f,
                  refl,
                );
              })
      ]
    ]

carry_out-Carried :
    (up : Bool) (now : ℕ) (call : RequestCall) (requests : List Request)
    → IsKeyed requests
    → Carried requests (carry_out up now call requests).1
unfolding carry_out update_status update_result
carry_out-Carried up now (create_call req) requests keyed = create-Carried up now req requests keyed
carry_out-Carried up now (status_call id status assigned attempts) requests keyed =
    update-Carried up id (with_status now status assigned attempts) requests (λ req. refl) keyed
carry_out-Carried up now (result_call id status code body error completed) requests keyed =
    update-Carried up id (with_result now status code body error completed) requests (λ req. refl)
      keyed

-- A history: each call with whether the driver answers and the time of the database.
abbrev pub RequestHistory : Type 0
RequestHistory = List (Bool × ℕ × RequestCall)

abbrev pub table_after : RequestHistory → List Request → List Request
table_after [] requests = requests
table_after ((up, now, call) ∷ calls) requests =
    table_after calls (carry_out up now call requests).1

-- After any history of the table of requests, whatever fails, no two rows share an ID or an
-- idempotency key where none did before, and a request that stood in the table still does, under
-- its ID, with the same idempotency key, source, priority, method, URL, headers, payload and time
-- of creation.
pub table_after-Keeps :
    (calls : RequestHistory) (requests : List Request)
    → IsKeyed requests
    → IsKeyed (table_after calls requests) × Keeps requests (table_after calls requests)
table_after-Keeps [] requests keyed = (keyed, λ id req e. (req, e, refl))
table_after-Keeps ((up, now, call) ∷ calls) requests keyed =
    let first = carry_out-Carried up now call requests keyed in
    let (last, others) = table_after-Keeps calls (carry_out up now call requests).1 first.keyed in
    (
      last,
      λ id req e.
          let (middle, found, same) = first.kept id req e in
          let (later, found_later, same_later) = others id middle found in
          (later, found_later, same_later ∙ same),
    )
