-- ===== src/Worker/Lifecycle/Settles.antt =====
-- Rounds of processItem on the row of one request, and that they come to an end.
use go_key_pool_system.Prelude.{
  ℕ, ◌+◌, ◌≡◌, ◌≢◌, ◌≤◌, ◌∙◌, refl, sym, ap, subst, inl, inr, String, ◌⊎◌, Option, none, some, List,
  [], ◌∷◌, arith, Option-cases, Bool-cases, true, false, length,
}
use go_key_pool_system.Prelude.Int.{pos, ◌≤ℤ◌, ◌<ℤ◌}
use go_key_pool_system.Prelude.Members.{All}
use go_key_pool_system.Db.Adapter.{processing, Request, update_request_status}
use go_key_pool_system.Db.Table.{Answer, ok, err, query_row}
use go_key_pool_system.Db.Table.Rows.{view-meets}
use go_key_pool_system.Db.Scan.{scan_request, scan_request_same}
use go_key_pool_system.Db.Requests.{get, update_status, with_status}
use go_key_pool_system.Db.Database.{Database, perform, perform_all}
use go_key_pool_system.Keypool.Manager.{Manager, get_key}
use go_key_pool_system.Worker.ProcessItem.{
  Worker, is_settled, with_decrypted, with_key, process_item,
}
use go_key_pool_system.Worker.ProcessItem.Settled.{
  retries, with_decrypted-once, with_decrypted-retries,
}
use go_key_pool_system.Worker.Lifecycle.{Round, serve, serve_rounds}
use go_key_pool_system.Worker.Lifecycle.Writes.{
  with_decrypted-Final, row, row-update, perform_all-Final,
}

abbrev got : Request → Answer Request → Request
got req (ok found) = found
got req (err e) = req

get-found :
    (id : String) (db : Database) (req : Request)
    → row db id ≡ some req
    → get true id db.requests ≡ ok (scan_request req)
unfolding get query_row
get-found id db req e = rw e refl

-- A row that GetRequest gives.
row-get :
    (id : String) (db : Database) (req : Request)
    → get true id db.requests ≡ ok req
    → row db id ≡ some req
unfolding get query_row
row-get id db req e = elim (Option-cases (row db id)) [
  | inl none_there ↦ ground (arith, e, none_there)
  | inr (found, there) ↦
      there
      ∙ ap some
          (sym (scan_request_same found) ∙ ap (got req) (sym (get-found id db found there) ∙ e))
]

-- The request under this ID is settled.
abbrev pub IsSettledAt : String → Database → Type 0
IsSettledAt id db =
    (req : Request) × (get true id db.requests ≡ ok req) × (is_settled req.status ≡ true)

found-get :
    (id : String) (db : Database) (req : Request)
    → row db id ≡ some req
    → get true id db.requests ≡ ok req
found-get id db req e = get-found id db req e ∙ ap ok (scan_request_same req)

-- An attempt that gives no result schedules the next one.
unscheduled : (n : ℕ) (retry : Option ℕ) → n ≡ 0 → retry ≡ none → n + retries retry ≡ 1 → ⊥
unscheduled n none quiet e h = omega arith
unscheduled n (some a) quiet e h = ground (arith, e)

-- What one attempt makes of a request: it is settled, or its attempts are one more and below the
-- limit.
abbrev Attempted : {F H : Type 0} → Worker F H → Request → String → Database → Type 0
Attempted w req id db =
    (after : Request) × (row db id ≡ some after)
    × ((is_settled after.status ≡ true)
        ⊎ ((after.attempts ≡ req.attempts + 1)
            × (pos (req.attempts + 1) <ℤ w.hot_cfg.retry_max_attempts)))

module _ {F H : Type 0} (w : Worker F H) where
  attempt-row :
      (now k : ℕ) (m : Manager) (db : Database) (req : Request)
      → row db req.id ≡ some req
      → Attempted w req req.id (perform_all true now (with_key w now req k m).writes db)
  unfolding with_key perform_all perform update_status
  attempt-row now k m db req e =
      let key = m.store k in
      let d = w.decrypt key.key_encrypted w.enc_key in
      let started : Request = with_status now processing key.id (req.attempts + 1) req in
      let marked : Database =
        perform true now (update_request_status req.id processing key.id (req.attempts + 1)) db in
      let (after, there, outcome) =
        perform_all-Final req.id now (with_decrypted w now req k m d).writes marked started
          (with_decrypted-Final w now req k m d)
          (row-update req.id (with_status now processing key.id (req.attempts + 1)) db.requests req
            (λ r. refl) e) in
      (
        after,
        there,
        elim outcome [
          | inr settled ↦ inl settled
          | inl (quiet, same) ↦ elim (Option-cases (with_decrypted w now req k m d).requeue) [
            | inl none_left ↦
                absurd (unscheduled _ _ quiet none_left (with_decrypted-once w now req k m d))
            | inr (n, again) ↦ inr (
              ap (λ r. r.attempts) same,
              omega (arith, with_decrypted-retries w now req k m d n again),
            )
          ]
        ],
      )

  -- An attempt settles the request, or counts against the limit.
  serve-key :
      (id : String) (now later : ℕ) (m : Manager) (db : Database) (req : Request)
      → row db id ≡ some req
      → ((get_key now m).0 ≢ none)
      → is_settled req.status ≡ false
      → Attempted w req id (serve w id (now, later, m) db)
  unfolding serve process_item
  serve-key id now later m db req e gives open_ =
      let same : req.id ≡ id = view-meets (λ r. r.id) db.requests id req e in
      elim (Option-cases (get_key now m).0) [
        | inl absent ↦ absurd (gives absent)
        | inr (k, selected) ↦
            rw (found-get id db req e, open_, selected)
              (subst
                (λ i.
                  Attempted w req i
                    (perform_all true later (with_key w later req k (get_key now m).1).writes db))
                same
                (attempt-row later k (get_key now m).1 db req
                  (subst (λ i. row db i ≡ some req) (sym same) e)))
      ]

  serve-settled :
      (id : String) (r : Round) (db : Database) (req : Request)
      → row db id ≡ some req
      → is_settled req.status ≡ true
      → serve w id r db ≡ db
  unfolding serve process_item perform_all
  serve-settled id (now, later, m) db req e settled = rw (found-get id db req e, settled) refl

  -- What is settled stays so.
  serve_rounds-settled :
      (id : String) (rounds : List Round) (db : Database) (req : Request)
      → row db id ≡ some req
      → is_settled req.status ≡ true
      → row (serve_rounds w id rounds db) id ≡ some req
  unfolding serve_rounds
  serve_rounds-settled id [] db req e settled = e
  serve_rounds-settled id ((now, later, m) ∷ rounds) db req e settled =
      subst (λ d. row (serve_rounds w id rounds d) id ≡ some req)
        (sym (serve-settled id (now, later, m) db req e settled))
        (serve_rounds-settled id rounds db req e settled)

  serve_rounds-row :
      (id : String) (rounds : List Round) (db : Database) (req : Request)
      → row db id ≡ some req
      → All (λ (r : Round). (get_key r.0 r.2).0 ≢ none) rounds
      → (is_settled req.status ≡ true)
        ⊎ ((1 ≤ length rounds)
            × (w.hot_cfg.retry_max_attempts ≤ℤ pos (req.attempts + length rounds)))
      → (after : Request) × (row (serve_rounds w id rounds db) id ≡ some after)
        × (is_settled after.status ≡ true)
  unfolding serve_rounds
  serve_rounds-row id rounds db req e gives (inl settled) =
      (req, serve_rounds-settled id rounds db req e settled, settled)
  serve_rounds-row id [] db req e gives (inr enough) = absurd (omega arith)
  serve_rounds-row id ((now, later, m) ∷ rounds) db req e gives (inr enough) =
      elim (Bool-cases (is_settled req.status)) [
        | inl settled ↦
            (req, serve_rounds-settled id ((now, later, m) ∷ rounds) db req e settled, settled)
        | inr unsettled ↦
            let (after, there, outcome) = serve-key id now later m db req e gives.0 unsettled in
            serve_rounds-row id rounds (serve w id (now, later, m) db) after there gives.1
              (elim outcome [
                | inl settled ↦ inl settled
                | inr counted ↦ inr (omega arith, omega arith)
              ])
      ]

  -- A request that GetRequest gives is settled, as a success or as failed, after any rounds of
  -- processItem on its row that find a key and whose writes succeed, where there is at least one and,
  -- with the attempts that the row counts, there are as many as retry_max_attempts allows: it is not
  -- retried for ever.
  pub serve_rounds-settles :
      (id : String) (rounds : List Round) (db : Database) (req : Request)
      → get true id db.requests ≡ ok req
      → All (λ (r : Round). (get_key r.0 r.2).0 ≢ none) rounds
      → 1 ≤ length rounds
      → w.hot_cfg.retry_max_attempts ≤ℤ pos (req.attempts + length rounds)
      → IsSettledAt id (serve_rounds w id rounds db)
  serve_rounds-settles id rounds db req e gives some_round enough =
      let (after, there, settled) =
        serve_rounds-row id rounds db req (row-get id db req e) gives (inr (some_round, enough)) in
      (after, found-get id (serve_rounds w id rounds db) after there, settled)
