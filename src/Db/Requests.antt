-- ===== src/Db/Requests.antt =====
-- internal/db/sqlite_requests.go: the table requests and its operations. `up`, `now` and `sort`
-- are as in Db/Keys.antt.
pub mod History
use go_key_pool_system.Prelude.{
  ◌≡◌, ℕ, String, Bool, true, false, ◌&&◌, ◌||◌, Option, none, some, List, [], ◌∷◌, ltb, take, map,
  if◌then◌else◌,
}
use go_key_pool_system.Prelude.Int.{ℤ, pos, negsuc, ltb_ℤ, leb_ℤ, eqb_ℤ}
use go_key_pool_system.Db.Adapter.{
  Request, RequestStatus, pending, processing, success, failed, queued,
}
use go_key_pool_system.Db.Table.{
  Answer, ok, err, unavailable, constraint, select_one, select_where, update_where, has, is_taken,
  exec, exec_insert, query_row,
}
use go_key_pool_system.Db.Scan.{scan_request}

abbrev pub request_id : Request → Option String
request_id req = some req.id

abbrev pub with_id : String → Request → Bool
with_id id req = has request_id id req

-- The row that CreateRequest inserts.
unfoldable pub inserted : ℕ → Request → Request
inserted now req = record req {
  assigned_key_id = none;
  last_error = none;
  response_status = none;
  response_body = none;
  created_at = now;
  updated_at = now;
  completed_at = none;
}

-- The id is the primary key, and idempotency_key is unique.
unfoldable pub create : Bool → ℕ → Request → List Request → Answer Unit × List Request
create up now req requests =
    exec_insert up
      (is_taken request_id (some req.id) requests
        || is_taken Request.idempotency_key req.idempotency_key requests)
      (inserted now req) requests

unfoldable pub get : Bool → String → List Request → Answer Request
get up id requests = query_row up scan_request (with_id id) requests

-- No row is not an error here.
unfoldable pub get_by_idempotency_key : Bool → String → List Request → Answer (Option Request)
get_by_idempotency_key up key requests =
    if up
    then (elim (select_one (has Request.idempotency_key key) requests) [
      | none ↦ ok none
      | some row ↦ ok (some (scan_request row))
    ])
    else err unavailable

abbrev pub with_status : ℕ → RequestStatus → String → ℕ → Request → Request
with_status now status assigned attempts req = record req {
  status = status;
  assigned_key_id = some assigned;
  attempts = attempts;
  updated_at = now;
}

unfoldable pub update_status :
    Bool → ℕ → String → RequestStatus → String → ℕ → List Request → Answer Unit × List Request
update_status up now id status assigned attempts requests =
    exec up (update_where (with_id id) (with_status now status assigned attempts) requests) requests

abbrev pub with_result : ℕ → RequestStatus → ℤ → String → String → ℕ → Request → Request
with_result now status code body error completed req = record req {
  status = status;
  response_status = some code;
  response_body = some body;
  last_error = some error;
  completed_at = some completed;
  updated_at = now;
}

unfoldable pub update_result :
    Bool
    → ℕ
    → String
    → RequestStatus
    → ℤ
    → String
    → String
    → ℕ
    → List Request
    → Answer Unit × List Request
update_result up now id status code body error completed requests =
    exec up (update_where (with_id id) (with_result now status code body error completed) requests)
      requests

-- status IN ('pending', 'queued')
unfoldable pub is_unfinished : Request → Bool
is_unfinished req = elim req.status [
  | pending ↦ true
  | queued ↦ true
  | processing ↦ false
  | success ↦ false
  | failed ↦ false
]

-- ORDER BY priority ASC, created_at ASC
unfoldable pub comes_first : Request → Request → Bool
comes_first x y =
    if eqb_ℤ x.priority y.priority
    then ltb x.created_at y.created_at
    else ltb_ℤ x.priority y.priority

-- LIMIT: a negative number is no limit.
unfoldable pub limited : {A : Type 0} → ℤ → List A → List A
limited (pos n) xs = take n xs
limited (negsuc n) xs = xs

unfoldable pub get_pending :
    ((Request → Request → Bool) → List Request → List Request)
    → Bool
    → ℤ
    → List Request
    → Answer (List Request)
get_pending sort up limit requests =
    if up
    then ok
        (map scan_request (limited limit (sort comes_first (select_where is_unfinished requests))))
    else err unavailable

-- A call of an operation that writes.
pub data RequestCall : Type 0 where
  create_call : Request → RequestCall
  status_call : String → RequestStatus → String → ℕ → RequestCall
  result_call : String → RequestStatus → ℤ → String → String → ℕ → RequestCall

unfoldable pub carry_out : Bool → ℕ → RequestCall → List Request → Answer Unit × List Request
carry_out up now (create_call req) requests = create up now req requests
carry_out up now (status_call id status assigned attempts) requests =
    update_status up now id status assigned attempts requests
carry_out up now (result_call id status code body error completed) requests =
    update_result up now id status code body error completed requests
