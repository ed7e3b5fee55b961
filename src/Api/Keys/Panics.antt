-- ===== src/Api/Keys/Panics.antt =====
-- What the handlers for keys in internal/api/handlers.go answer once they have changed a row: nothing,
-- since logKeyEvent panics on its nil context.
use go_key_pool_system.Prelude.{
  ℕ, ◌≡◌, ◌∙◌, refl, sym, ap, subst, String, Bool, true, false, ◌||◌, some, List, [], ◌∷◌, ◌⊎◌, inl,
  inr, arith, str_eq, Bool-cases, sum-cases, Option-cases, ◌==◌, ◌≤◌,
}
use go_key_pool_system.Db.Adapter.{ApiKey, EventType, circuit_closed}
use go_key_pool_system.Db.Table.{
  Answer, DbError, ok, err, update_where, delete_where, rows_affected, is_taken,
  exec_expecting_one_row,
}
use go_key_pool_system.Db.Keys
use go_key_pool_system.Api.Http.{
  HttpIn, Outcome, panicked, write_json, write_error, object, text, code,
}
use go_key_pool_system.Api.Server.{Server, Library, Call}
use go_key_pool_system.Api.Submit.{extract_path_param}
use go_key_pool_system.Prelude.Texts.{has_suffix}
use go_key_pool_system.Api.Keys.{
  add_key, delete_key, reset_key_circuit, with_keys, after_write, logged, log_key_event, db_context,
  new_api_key, id_before_action,
}

-- Either an error is answered and nothing has changed, or the keys have been written as `written`
-- says and there is no answer.
abbrev pub Unanswered : (List ApiKey → Type 0) → Server → Outcome × Server → Type 0
Unanswered written s done =
    ((400 ≤ code done.0) × (done.1 ≡ s))
    ⊎ ((done.0 ≡ panicked) × ((keys : List ApiKey) × written keys × (done.1 ≡ with_keys keys s)))

ok-err : {e : DbError} → ◌≡◌ {A = Answer Unit} (ok tt) (err e) → ⊥
ok-err h = ground (arith, h)

-- A statement that affects no row changes nothing.
update_where-none :
    {A : Type 0} (p : A → Bool) (f : A → A) (xs : List A)
    → (rows_affected p xs == 0) ≡ true
    → update_where p f xs ≡ xs
update_where-none p f [] e = refl
update_where-none p f (x ∷ xs) e = ground (arith, e, update_where-none p f xs)

delete_where-none :
    {A : Type 0} (p : A → Bool) (xs : List A)
    → (rows_affected p xs == 0) ≡ true
    → delete_where p xs ≡ xs
delete_where-none p [] e = refl
delete_where-none p (x ∷ xs) e = ground (arith, e, delete_where-none p xs)

exec_expecting_one_row-failed :
    (up : Bool) (p : ApiKey → Bool) (after xs keys : List ApiKey) (e : DbError)
    → ((rows_affected p xs == 0) ≡ true → after ≡ xs)
    → exec_expecting_one_row up p after xs ≡ (err e, keys)
    → keys ≡ xs
unfolding exec_expecting_one_row
exec_expecting_one_row-failed false p after xs keys e none_there h = sym (ap (λ r. r.1) h)
exec_expecting_one_row-failed true p after xs keys e none_there h =
    elim (Bool-cases (rows_affected p xs == 0)) [
      | inl zero ↦ sym (ap (λ r. r.1) (rw zero at h)) ∙ none_there zero
      | inr more ↦ absurd (ok-err (ap (λ r. r.0) (rw more at h)))
    ]

exec_expecting_one_row-up :
    (up : Bool) (p : ApiKey → Bool) (after xs keys : List ApiKey)
    → exec_expecting_one_row up p after xs ≡ (ok tt, keys)
    → exec_expecting_one_row true p after xs ≡ (ok tt, keys)
unfolding exec_expecting_one_row
exec_expecting_one_row-up false p after xs keys h = absurd (ok-err (ap (λ r. r.0) (sym h)))
exec_expecting_one_row-up true p after xs keys h = h

create-failed :
    (up : Bool) (now : ℕ) (key : ApiKey) (xs keys : List ApiKey) (e : DbError)
    → Keys.create up now key xs ≡ (err e, keys)
    → keys ≡ xs
unfolding Keys.create
create-failed false now key xs keys e h = sym (ap (λ r. r.1) h)
create-failed true now key xs keys e h = elim (Bool-cases (is_taken Keys.key_id (some key.id) xs)) [
  | inl taken ↦ sym (ap (λ r. r.1) (rw taken at h))
  | inr fresh ↦ absurd (ok-err (ap (λ r. r.0) (rw fresh at h)))
]

create-up :
    (up : Bool) (now : ℕ) (key : ApiKey) (xs keys : List ApiKey)
    → Keys.create up now key xs ≡ (ok tt, keys)
    → Keys.create true now key xs ≡ (ok tt, keys)
unfolding Keys.create
create-up false now key xs keys h = absurd (ok-err (ap (λ r. r.0) (sym h)))
create-up true now key xs keys h = h

-- A write, and the event that is never written.
logged_write-Unanswered :
    (written : List ApiKey → Type 0) (w : Answer Unit × List ApiKey) (failure : String)
    (call : Call) (id : String) (event : EventType) (message : String) (answer : Outcome)
    (s : Server)
    → ((e : DbError) (keys : List ApiKey) → w ≡ (err e, keys) → keys ≡ s.db.api_keys)
    → ((keys : List ApiKey) → w ≡ (ok tt, keys) → written keys)
    → Unanswered written s (
        after_write w failure
          (logged (log_key_event call id event message s.db.key_events) answer)
          s)
unfolding log_key_event db_context
logged_write-Unanswered written (ok u, keys) failure call id event message answer s fails works =
    inr (refl, (keys, works keys refl, refl))
logged_write-Unanswered written (err e, keys) failure call id event message answer s fails works =
    inl (omega arith, ap (λ k. with_keys k s) (fails e keys refl))

module _ (lib : Library) (call : Call) (r : HttpIn) (s : Server) where
  abbrev pub Added : List ApiKey → Type 0
  Added keys = (key : ApiKey) × (Keys.create true call.now key s.db.api_keys ≡ (ok tt, keys))

  abbrev pub Deleted : List ApiKey → Type 0
  Deleted keys =
      Keys.delete true (extract_path_param r.path "/admin/keys/") s.db.api_keys ≡ (ok tt, keys)

  abbrev pub WasReset : List ApiKey → Type 0
  WasReset keys =
      (id : String) × (id_before_action r.path ≡ some id)
      × (Keys.reset_circuit true call.now id s.db.api_keys ≡ (ok tt, keys))

  answered_error :
      (written : List ApiKey → Type 0) (status : ℕ) (message : String)
      → 400 ≤ status
      → Unanswered written s (write_error status message, s)
  answered_error written status message h = inl (h, refl)

  add_key-Unanswered : Unanswered Added s (add_key lib call r s)
  unfolding add_key
  add_key-Unanswered = elim (Bool-cases (str_eq r.method "POST")) [
    | inr e ↦ rw e (answered_error Added 405 _ (omega arith))
    | inl e ↦ elim (sum-cases (lib.decode_key r.body)) [
      | inl (error, d) ↦ rw (e, d) (answered_error Added 400 _ (omega arith))
      | inr (body, d) ↦ elim (Bool-cases (str_eq body.name "" || str_eq body.key "")) [
        | inl missing ↦ rw (e, d, missing) (answered_error Added 400 _ (omega arith))
        | inr whole ↦ elim (sum-cases (lib.encrypt body.key)) [
          | inl (error, c) ↦ rw (e, d, whole, c) (answered_error Added 500 _ (omega arith))
          | inr (encrypted, c) ↦
              let key = new_api_key call body encrypted in
              rw (e, d, whole, c)
                (logged_write-Unanswered Added _ _ call _ _ _ _ s
                  (λ error keys h.
                    create-failed (call.up 0) call.now key s.db.api_keys keys error h)
                  (λ keys h. (key, create-up (call.up 0) call.now key s.db.api_keys keys h)))
        ]
      ]
    ]
  ]

  delete_key-Unanswered : Unanswered Deleted s (delete_key call r s)
  unfolding delete_key Keys.delete
  delete_key-Unanswered =
      let id = extract_path_param r.path "/admin/keys/" in
      elim (Bool-cases (str_eq r.method "DELETE")) [
        | inr e ↦ rw e (answered_error Deleted 405 _ (omega arith))
        | inl e ↦ elim (Bool-cases (str_eq id "")) [
          | inl empty ↦ rw (e, empty) (answered_error Deleted 400 _ (omega arith))
          | inr there ↦ elim (Bool-cases (has_suffix id "/reset" || has_suffix id "/weight")) [
            | inl action ↦ rw (e, there, action) (answered_error Deleted 405 _ (omega arith))
            | inr bare ↦
                rw (e, there, bare)
                  (logged_write-Unanswered Deleted _ _ call _ _ _ _ s
                    (λ error keys h.
                      exec_expecting_one_row-failed (call.up 0) (Keys.with_id id) _ s.db.api_keys
                        keys error (delete_where-none (Keys.with_id id) s.db.api_keys) h)
                    (λ keys h.
                      exec_expecting_one_row-up (call.up 0) (Keys.with_id id) _ s.db.api_keys keys
                        h))
          ]
        ]
      ]

  reset_key_circuit-Unanswered : Unanswered WasReset s (reset_key_circuit call r s)
  unfolding reset_key_circuit Keys.reset_circuit
  reset_key_circuit-Unanswered = elim (Bool-cases (str_eq r.method "POST")) [
    | inr e ↦ rw e (answered_error WasReset 405 _ (omega arith))
    | inl e ↦ elim (Option-cases (id_before_action r.path)) [
      | inl absent ↦ rw (e, absent) (inl (omega arith, refl))
      | inr (id, there) ↦
          let reset = Keys.with_circuit_reset call.now in
          subst (λ done. Unanswered WasReset s done) (sym (rw (e, there) refl))
            (logged_write-Unanswered WasReset
              (Keys.reset_circuit (call.up 0) call.now id s.db.api_keys)
              "failed to reset circuit breaker" call id circuit_closed
              "circuit breaker manually reset via API"
              (write_json 200 (object (("id", text id) ∷ ("status", text "circuit_reset") ∷ []))) s
              (λ error keys h.
                exec_expecting_one_row-failed (call.up 0) (Keys.with_id id) _ s.db.api_keys keys
                  error (update_where-none (Keys.with_id id) reset s.db.api_keys) h)
              (λ keys h. (
                id,
                there,
                exec_expecting_one_row-up (call.up 0) (Keys.with_id id) _ s.db.api_keys keys h,
              )))
    ]
  ]

  -- POST of a key, DELETE of a key and the reset of a circuit never tell the client that they have
  -- succeeded: each answers an error and has changed nothing, or has inserted a row, deleted the row
  -- of the path's ID, or reset its circuit, and then panics with no event written and no answer.
  pub key_changes-Unanswered :
      Unanswered Added s (add_key lib call r s)
      × Unanswered Deleted s (delete_key call r s)
      × Unanswered WasReset s (reset_key_circuit call r s)
  key_changes-Unanswered = (add_key-Unanswered, delete_key-Unanswered, reset_key_circuit-Unanswered)
