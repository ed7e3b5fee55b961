-- ===== src/Worker/Lifecycle/Writes.antt =====
-- What the writes of processItem make of the row of its request: those after the first are final.
use go_key_pool_system.Prelude.{
  ℕ, ◌≡◌, ◌∙◌, refl, sym, ap, subst, eq_iff, inl, inr, String, ◌⊎◌, Option, some, List, [], ◌∷◌,
  ◌++◌, arith, Bool-cases, true, str_eq, str_eq_self,
}
use go_key_pool_system.Db.Adapter.{
  RequestStatus, success, failed, Request, Write, update_request_result, update_request_status,
  create_key_event, update_api_key_last_used, update_api_key_health,
}
use go_key_pool_system.Db.Table.{update_where}
use go_key_pool_system.Db.Table.Rows.{view, view-update}
use go_key_pool_system.Db.Requests.{with_id, update_result, with_result}
use go_key_pool_system.Db.Database.{Database, perform, perform_all}
use go_key_pool_system.Keypool.Manager.{Manager, release_key}
use go_key_pool_system.Keypool.Marks.{mark_failed, mark_success}
use go_key_pool_system.Worker.ProcessItem.{
  Worker, HttpResponse, is_settled, is_success, is_retryable, handle_failure, handle_result,
  with_decrypted,
}
use go_key_pool_system.Worker.ProcessItem.Settled.{results}

-- The writes about requests are final results of this one.
unfoldable pub Final : String → List Write → Type 0
Final id [] = Unit
Final id (update_request_result other status code body error now ∷ ws) =
    (str_eq other id ≡ true) × (is_settled status ≡ true) × Final id ws
Final id (create_key_event e ∷ ws) = Final id ws
Final id (update_api_key_last_used key ∷ ws) = Final id ws
Final id (update_api_key_health key up n state ∷ ws) = Final id ws
Final id (update_request_status other status key n ∷ ws) = ⊥

Final-append : (id : String) (xs ys : List Write) → Final id xs → Final id ys → Final id (xs ++ ys)
unfolding Final
Final-append id [] ys h k = k
Final-append id (update_request_result other status code body error now ∷ ws) ys h k =
    (h.0, h.1, Final-append id ws ys h.2 k)
Final-append id (create_key_event e ∷ ws) ys h k = Final-append id ws ys h k
Final-append id (update_api_key_last_used key ∷ ws) ys h k = Final-append id ws ys h k
Final-append id (update_api_key_health key up n state ∷ ws) ys h k = Final-append id ws ys h k
Final-append id (update_request_status other status key n ∷ ws) ys h k = absurd h

settled_success : is_settled success ≡ true
unfolding is_settled
settled_success = refl

settled_failed : is_settled failed ≡ true
unfolding is_settled
settled_failed = refl

result-Final :
    (id : String) (status : RequestStatus) (resp : HttpResponse) (now : ℕ)
    → is_settled status ≡ true
    → Final id (update_request_result id status resp.status_code resp.body "" now ∷ [])
unfolding Final
result-Final id status resp now e = (str_eq_self id, e, tt)

mark_failed-Final : (id : String) (now k : ℕ) (m : Manager) → Final id (mark_failed now k m).1
unfolding Final mark_failed
mark_failed-Final id now k m = ground arith

mark_success-Final : (id : String) (k : ℕ) (m : Manager) → Final id (mark_success k m).1
unfolding Final mark_success
mark_success-Final id k m = ground arith

module _ {F H : Type 0} (w : Worker F H) where
  handle_failure-Final :
      (now : ℕ) (req : Request) (error : String) → Final req.id (handle_failure w now req error).0
  unfolding handle_failure Final is_settled
  handle_failure-Final now req error = ground (arith, str_eq_self req.id)

  handle_result-Final :
      (now : ℕ) (req : Request) (k : ℕ) (r : String ⊎ HttpResponse) (m : Manager)
      → Final req.id (handle_result w now req k r m).1
  unfolding handle_result
  handle_result-Final now req k (inl error) m =
      Final-append req.id _ _ (mark_failed-Final req.id now k m)
        (handle_failure-Final now req error)
  handle_result-Final now req k (inr resp) m =
      let used : (status : RequestStatus)
          → is_settled status ≡ true
          → Final req.id (
              (mark_success k m).1
              ++ update_request_result req.id status resp.status_code resp.body "" now ∷ []) =
        λ status e.
          Final-append req.id _ _ (mark_success-Final req.id k m)
            (result-Final req.id status resp now e) in
      let again : Final req.id ((mark_failed now k m).1 ++ (handle_failure w now req resp.body).0) =
        Final-append req.id _ _ (mark_failed-Final req.id now k m)
          (handle_failure-Final now req resp.body) in
      elim (Bool-cases (is_success resp.status_code)) [
        | inl e ↦ rw e (used success settled_success)
        | inr e ↦ elim (Bool-cases (is_retryable resp.status_code)) [
          | inl f ↦ rw (e, f) again
          | inr f ↦ rw (e, f) (used failed settled_failed)
        ]
      ]

  pub with_decrypted-Final :
      (now : ℕ) (req : Request) (k : ℕ) (m : Manager) (d : String ⊎ String)
      → Final req.id (with_decrypted w now req k m d).writes
  unfolding with_decrypted
  with_decrypted-Final now req k m (inl error) = handle_failure-Final now req _
  with_decrypted-Final now req k m (inr api_key) = handle_result-Final now req k _ (release_key k m)

abbrev pub row : Database → String → Option Request
row db = view (λ req. req.id) db.requests

-- A row after its update.
pub row-update :
    (id : String) (f : Request → Request) (requests : List Request) (req : Request)
    → ((r : Request) → (f r).id ≡ r.id)
    → view (λ r. r.id) requests id ≡ some req
    → view (λ r. r.id) (update_where (with_id id) f requests) id ≡ some (f req)
row-update id f requests req keeps e =
    view-update (λ r. r.id) id id f requests keeps ∙ rw (str_eq_self id, e) refl

-- Writes that are final leave the row as it was where there is no result among them, and settle it
-- otherwise.
pub perform_all-Final :
    (id : String) (now : ℕ) (ws : List Write) (db : Database) (req : Request)
    → Final id ws
    → row db id ≡ some req
    → (later : Request) × (row (perform_all true now ws db) id ≡ some later)
      × (((results id ws ≡ 0) × (later ≡ req)) ⊎ (is_settled later.status ≡ true))
unfolding perform_all perform Final results update_result
perform_all-Final id now [] db req h e = (req, e, inl (refl, refl))
perform_all-Final id now (update_request_result other status code body error ended ∷ ws) db req h
      e =
    let f : Request → Request = with_result now status code body error ended in
    let changed : row
          (perform true now (update_request_result other status code body error ended) db) id
        ≡ some (f req) =
      subst (λ o. view (λ r. r.id) (update_where (with_id o) f db.requests) id ≡ some (f req))
        (sym ((eq_iff other id).0 h.0)) (row-update id f db.requests req (λ r. refl) e) in
    let (later, there, outcome) =
      perform_all-Final id now ws
        (perform true now (update_request_result other status code body error ended) db) (f req) h.2
        changed in
    (
      later,
      there,
      inr (elim outcome [
        | inl unchanged ↦ ap (λ r. is_settled r.status) unchanged.1 ∙ h.1
        | inr settled ↦ settled
      ]),
    )
perform_all-Final id now (create_key_event event ∷ ws) db req h e =
    perform_all-Final id now ws (perform true now (create_key_event event) db) req h e
perform_all-Final id now (update_api_key_last_used key ∷ ws) db req h e =
    perform_all-Final id now ws (perform true now (update_api_key_last_used key) db) req h e
perform_all-Final id now (update_api_key_health key up n state ∷ ws) db req h e =
    perform_all-Final id now ws (perform true now (update_api_key_health key up n state) db) req h e
perform_all-Final id now (update_request_status other status key n ∷ ws) db req h e = absurd h
