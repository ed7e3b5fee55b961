-- ===== src/Worker/Lifecycle.antt =====
-- processItem of internal/worker/worker.go on the tables of internal/db: a round loads the row of
-- the request, and its writes change the tables. What comes between two rounds of one request, the
-- backoff and the work on other requests, shows in the manager that each round starts with.
pub mod Writes
pub mod Settles
use go_key_pool_system.Prelude.{
  ℕ, ◌+◌, ◌≡◌, ◌≢◌, ◌≤◌, ◌∙◌, refl, sym, ap, subst, eq_iff, inl, inr, String, ◌⊎◌, Option, none,
  some, List, [], ◌∷◌, ◌++◌, arith, if◌then◌else◌, Option-cases, Bool-cases, Bool, true, false,
  str_eq, str_eq_self, length,
}
use go_key_pool_system.Prelude.Int.{ℤ, pos, ◌≤ℤ◌, ◌<ℤ◌}
use go_key_pool_system.Prelude.Members.{All}
use go_key_pool_system.Db.Adapter.{
  RequestStatus, success, failed, processing, Request, Write, update_request_result,
  update_request_status, create_key_event, update_api_key_last_used, update_api_key_health,
}
use go_key_pool_system.Db.Table.{Answer, ok, err, select_one, update_where, exec, query_row}
use go_key_pool_system.Db.Table.Rows.{view, view-update, view-meets, put, bind}
use go_key_pool_system.Db.Scan.{scan_request, scan_request_same}
use go_key_pool_system.Db.Requests.{
  with_id, get, update_status, update_result, with_status, with_result,
}
use go_key_pool_system.Db.Database.{Database, perform, perform_all}
use go_key_pool_system.Keypool.Manager.{Manager, get_key, release_key}
use go_key_pool_system.Keypool.Marks.{mark_failed, mark_success}
use go_key_pool_system.Worker.ProcessItem.{
  Worker, HttpResponse, Processed, skip, is_settled, is_success, is_retryable, handle_failure,
  handle_result, with_decrypted, with_key, process_item,
}
use go_key_pool_system.Worker.ProcessItem.Settled.{
  results, retries, with_decrypted-once, with_decrypted-retries,
}

-- What GetRequest returns, as processItem reads it.
abbrev pub loaded : Answer Request → Option (Option Request)
loaded (ok req) = some (some req)
loaded (err e) = none

-- When a round begins, when its result comes, and the manager then.
abbrev pub Round : Type 0
Round = ℕ × ℕ × Manager

module _ {F H : Type 0} (w : Worker F H) where
  unfoldable pub serve : String → Round → Database → Database
  serve id (now, later, m) db =
      perform_all true later (process_item w now later (loaded (get true id db.requests)) m).writes
        db

  unfoldable pub serve_rounds : String → List Round → Database → Database
  serve_rounds id [] db = db
  serve_rounds id (r ∷ rs) db = serve_rounds id rs (serve id r db)
