-- ===== src/Worker/ProcessItem/Settled.antt =====
-- What becomes of the request in processItem of internal/worker/worker.go.
use go_key_pool_system.Prelude.{
  ℕ, ◌+◌, ◌≡◌, inl, inr, String, ◌⊎◌, Option, none, some, List, [], ◌∷◌, ◌++◌, arith, if◌then◌else◌,
  Option-cases, Bool-cases, str_eq, str_eq_self, ◌&&◌, true, refl,
}
use go_key_pool_system.Prelude.Int.{ℤ, pos, ◌<ℤ◌}
use go_key_pool_system.Db.Adapter.{
  RequestStatus, success, failed, Request, Write, update_request_result, update_request_status,
  create_key_event, update_api_key_last_used, update_api_key_health,
}
use go_key_pool_system.Keypool.Manager.{Manager, get_key, release_key}
use go_key_pool_system.Keypool.Marks.{mark_failed, mark_success}
use go_key_pool_system.Worker.ProcessItem.{
  Worker, HttpResponse, skip, is_settled, is_success, is_retryable, handle_failure, handle_result,
  with_decrypted, with_key, process_item,
}

-- How many of the writes give the request `id` its final result: success or failed.
unfoldable pub results : String → List Write → ℕ
results target [] = 0
results target (update_request_result id status code body error now ∷ ws) =
    (if str_eq id target && is_settled status then 1 else 0) + results target ws
results target (create_key_event e ∷ ws) = results target ws
results target (update_api_key_last_used id ∷ ws) = results target ws
results target (update_api_key_health id ok n state ∷ ws) = results target ws
results target (update_request_status id status key n ∷ ws) = results target ws

abbrev pub retries : Option ℕ → ℕ
retries none = 0
retries (some n) = 1

results-append :
    (target : String) (xs ys : List Write)
    → results target (xs ++ ys) ≡ results target xs + results target ys
unfolding results
results-append target [] ys = omega arith
results-append target (update_request_result id status code body error now ∷ ws) ys =
    omega (arith, results-append target ws ys)
results-append target (create_key_event e ∷ ws) ys = results-append target ws ys
results-append target (update_api_key_last_used id ∷ ws) ys = results-append target ws ys
results-append target (update_api_key_health id ok n state ∷ ws) ys = results-append target ws ys
results-append target (update_request_status id status key n ∷ ws) ys = results-append target ws ys

mark_failed-results :
    (target : String) (now k : ℕ) (m : Manager) → results target (mark_failed now k m).1 ≡ 0
unfolding results mark_failed
mark_failed-results target now k m = ground arith

mark_success-results :
    (target : String) (k : ℕ) (m : Manager) → results target (mark_success k m).1 ≡ 0
unfolding results mark_success
mark_success-results target k m = ground arith

one_result :
    (id : String) (status : RequestStatus) (code : ℤ) (body : String) (now : ℕ)
    → is_settled status ≡ true
    → results id (update_request_result id status code body "" now ∷ []) ≡ 1
unfolding results
one_result id status code body now e = rw (str_eq_self id, e) refl

settled_ends : (is_settled success ≡ true) × (is_settled failed ≡ true)
unfolding is_settled
settled_ends = (refl, refl)

module _ {F H : Type 0} (w : Worker F H) where
  handle_failure-once :
      (now : ℕ) (req : Request) (error : String)
      → let r = handle_failure w now req error in results req.id r.0 + retries r.1 ≡ 1
  unfolding handle_failure results is_settled
  handle_failure-once now req error = let own = str_eq_self req.id in ground (arith, own)

  handle_result-once :
      (now : ℕ) (req : Request) (k : ℕ) (r : String ⊎ HttpResponse) (m : Manager)
      → let done = handle_result w now req k r m in results req.id done.1 + retries done.2 ≡ 1
  unfolding handle_result
  handle_result-once now req k (inl error) m = omega (
    arith,
    results-append req.id (mark_failed now k m).1 (handle_failure w now req error).0,
    mark_failed-results req.id now k m,
    handle_failure-once now req error,
  )
  handle_result-once now req k (inr resp) m =
      let used = mark_success-results req.id k m in
      elim (Bool-cases (is_success resp.status_code)) [
        | inl ok ↦ rw ok (
            omega (
              arith,
              results-append req.id (mark_success k m).1
                  (update_request_result req.id success resp.status_code resp.body "" now ∷ []),
              used,
              one_result req.id success resp.status_code resp.body now settled_ends.0,
            ))
        | inr bad ↦ elim (Bool-cases (is_retryable resp.status_code)) [
          | inl again ↦
              rw (bad, again)
                (omega (
                  arith,
                  results-append req.id (mark_failed now k m).1
                      (handle_failure w now req resp.body).0,
                  mark_failed-results req.id now k m,
                  handle_failure-once now req resp.body,
                ))
          | inr final ↦
              rw (bad, final)
                (omega (
                  arith,
                  results-append req.id (mark_success k m).1
                      (update_request_result req.id failed resp.status_code resp.body "" now ∷ []),
                  used,
                  one_result req.id failed resp.status_code resp.body now settled_ends.1,
                ))
        ]
      ]

  pub with_decrypted-once :
      (now : ℕ) (req : Request) (k : ℕ) (m : Manager) (d : String ⊎ String)
      → let r = with_decrypted w now req k m d in results req.id r.writes + retries r.requeue ≡ 1
  unfolding with_decrypted
  with_decrypted-once now req k m (inl error) = handle_failure-once now req _
  with_decrypted-once now req k m (inr api_key) = handle_result-once now req k _ (release_key k m)

  -- A call on a request that is loaded and not yet settled either writes one final result, success or
  -- failed, under the ID of the request, or asks for a retry, and not both; a call on a loaded request
  -- that is settled does neither.
  pub process_item_once :
      (now later : ℕ) (req : Request) (m : Manager)
      → let r = process_item w now later (some (some req)) m in
        results req.id r.writes + retries r.requeue ≡ (if is_settled req.status then 0 else 1)
  unfolding process_item with_key results
  process_item_once now later req m = elim (Option-cases (get_key now m).0) [
    | inl e ↦ rw e (ground arith)
    | inr (k, e) ↦ rw e (
        ground (
          arith,
          with_decrypted-once later req k (get_key now m).1
              (w.decrypt ((get_key now m).1.store k).key_encrypted w.enc_key),
        ))
  ]

  handle_failure-retries :
      (now : ℕ) (req : Request) (error : String) (n : ℕ)
      → (handle_failure w now req error).1 ≡ some n
      → (n ≡ req.attempts) × (pos (n + 1) <ℤ w.hot_cfg.retry_max_attempts)
  unfolding handle_failure
  handle_failure-retries now req error n h = ground arith

  handle_result-retries :
      (now : ℕ) (req : Request) (k : ℕ) (r : String ⊎ HttpResponse) (m : Manager) (n : ℕ)
      → (handle_result w now req k r m).2 ≡ some n
      → (n ≡ req.attempts) × (pos (n + 1) <ℤ w.hot_cfg.retry_max_attempts)
  unfolding handle_result
  handle_result-retries now req k (inl error) m n h = handle_failure-retries now req error n h
  handle_result-retries now req k (inr resp) m n h =
      ground (arith, handle_failure-retries now req resp.body n)

  pub with_decrypted-retries :
      (now : ℕ) (req : Request) (k : ℕ) (m : Manager) (d : String ⊎ String) (n : ℕ)
      → (with_decrypted w now req k m d).requeue ≡ some n
      → (n ≡ req.attempts) × (pos (n + 1) <ℤ w.hot_cfg.retry_max_attempts)
  unfolding with_decrypted
  with_decrypted-retries now req k m (inl error) n h = handle_failure-retries now req _ n h
  with_decrypted-retries now req k m (inr api_key) n h =
      handle_result-retries now req k _ (release_key k m) n h

  attempted :
      (now : ℕ) (req : Request) (k : ℕ) (m m' : Manager) (n : ℕ)
      → (if is_settled req.status then skip w m else with_key w now req k m').requeue ≡ some n
      → (n ≡ req.attempts) × (pos (n + 1) <ℤ w.hot_cfg.retry_max_attempts)
  unfolding with_key
  attempted now req k m m' n h = ground (
    arith,
    with_decrypted-retries now req k m' (w.decrypt (m'.store k).key_encrypted w.enc_key) n,
  )

  -- A retry after an attempt is the next one that the limit allows; otherwise no key was available,
  -- and nothing was written or sent.
  pub process_item_retries :
      (now later : ℕ) (req : Request) (m : Manager) (n : ℕ)
      → (process_item w now later (some (some req)) m).requeue ≡ some n
      → let r = process_item w now later (some (some req)) m in
        ((n ≡ req.attempts) × (pos (n + 1) <ℤ w.hot_cfg.retry_max_attempts))
        ⊎ (((get_key now m).0 ≡ none) × (r.writes ≡ []) × (r.calls ≡ []))
  unfolding process_item with_key
  process_item_retries now later req m n h = elim (Option-cases (get_key now m).0) [
    | inl e ↦ inr (e, rw e (ground arith), rw e (ground arith))
    | inr (k, e) ↦ inl (attempted later req k m (get_key now m).1 n (rw e at h))
  ]
