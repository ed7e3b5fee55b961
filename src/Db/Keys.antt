-- ===== src/Db/Keys.antt =====
-- internal/db/sqlite_keys.go: the table api_keys and its operations. `up` says whether the driver
-- carries the statement out, `now` is datetime('now'), and `sort` is the ORDER BY of SQLite, given
-- the comparison.
pub mod KeyMap
pub mod Simulates
pub mod Refines
use go_key_pool_system.Prelude.{
  ◌≡◌, ℕ, String, Bool, true, false, Option, none, some, List, ltb, map, if◌then◌else◌,
}
use go_key_pool_system.Prelude.Int.{ℤ, pos, ◌+ℤ◌}
use go_key_pool_system.Db.Adapter.{ApiKey, CircuitState, closed}
use go_key_pool_system.Db.Table.{
  Answer, ok, err, unavailable, update_where, delete_where, has, is_taken, exec, exec_insert,
  exec_expecting_one_row, query_row,
}
use go_key_pool_system.Db.Scan.{scan_api_key}

abbrev pub key_id : ApiKey → Option String
key_id key = some key.id

-- WHERE id = ?
abbrev pub with_id : String → ApiKey → Bool
with_id id key = has key_id id key

-- The row that CreateAPIKey inserts: the columns that it does not name have their defaults.
unfoldable pub inserted : ℕ → ApiKey → ApiKey
inserted now key = record key { last_used_at = none; created_at = now; updated_at = now }

unfoldable pub create : Bool → ℕ → ApiKey → List ApiKey → Answer Unit × List ApiKey
create up now key keys = exec_insert up (is_taken key_id (some key.id) keys) (inserted now key) keys

unfoldable pub get : Bool → String → List ApiKey → Answer ApiKey
get up id keys = query_row up scan_api_key (with_id id) keys

unfoldable pub get_all :
    ((ApiKey → ApiKey → Bool) → List ApiKey → List ApiKey)
    → Bool
    → List ApiKey
    → Answer (List ApiKey)
get_all sort up keys =
    if up
    then ok (map scan_api_key (sort (λ x y. ltb x.created_at y.created_at) keys))
    else err unavailable

abbrev pub reweighted : ℕ → ℤ → ApiKey → ApiKey
reweighted now weight key = record key { weight = weight; updated_at = now }

unfoldable pub update_weight : Bool → ℕ → String → ℤ → List ApiKey → Answer Unit × List ApiKey
update_weight up now id weight keys =
    exec_expecting_one_row up (with_id id) (update_where (with_id id) (reweighted now weight) keys)
      keys

abbrev pub with_health : ℕ → Bool → ℕ → CircuitState → ApiKey → ApiKey
with_health now healthy count state key = record key {
  is_healthy = healthy;
  failure_count = count;
  circuit_state = state;
  updated_at = now;
}

unfoldable pub update_health :
    Bool → ℕ → String → Bool → ℕ → CircuitState → List ApiKey → Answer Unit × List ApiKey
update_health up now id healthy count state keys =
    exec_expecting_one_row up (with_id id)
      (update_where (with_id id) (with_health now healthy count state) keys) keys

abbrev pub used : ℕ → ApiKey → ApiKey
used now key = record key { last_used_at = some now; updated_at = now }

unfoldable pub update_last_used : Bool → ℕ → String → List ApiKey → Answer Unit × List ApiKey
update_last_used up now id keys = exec up (update_where (with_id id) (used now) keys) keys

abbrev pub with_concurrent : ℕ → ℤ → ApiKey → ApiKey
with_concurrent now delta key = record key {
  current_concurrent = key.current_concurrent +ℤ delta;
  updated_at = now;
}

unfoldable pub update_concurrent : Bool → ℕ → String → ℤ → List ApiKey → Answer Unit × List ApiKey
update_concurrent up now id delta keys =
    exec up (update_where (with_id id) (with_concurrent now delta) keys) keys

unfoldable pub delete : Bool → String → List ApiKey → Answer Unit × List ApiKey
delete up id keys = exec_expecting_one_row up (with_id id) (delete_where (with_id id) keys) keys

abbrev pub with_circuit_reset : ℕ → ApiKey → ApiKey
with_circuit_reset now key = record key {
  failure_count = 0;
  circuit_state = closed;
  is_healthy = true;
  updated_at = now;
}

unfoldable pub reset_circuit : Bool → ℕ → String → List ApiKey → Answer Unit × List ApiKey
reset_circuit up now id keys =
    exec_expecting_one_row up (with_id id) (update_where (with_id id) (with_circuit_reset now) keys)
      keys

-- A call of an operation that writes.
pub data KeyCall : Type 0 where
  create_call : ApiKey → KeyCall
  weight_call : String → ℤ → KeyCall
  health_call : String → Bool → ℕ → CircuitState → KeyCall
  last_used_call : String → KeyCall
  concurrent_call : String → ℤ → KeyCall
  delete_call : String → KeyCall
  reset_call : String → KeyCall

unfoldable pub carry_out : Bool → ℕ → KeyCall → List ApiKey → Answer Unit × List ApiKey
carry_out up now (create_call key) keys = create up now key keys
carry_out up now (weight_call id weight) keys = update_weight up now id weight keys
carry_out up now (health_call id healthy count state) keys =
    update_health up now id healthy count state keys
carry_out up now (last_used_call id) keys = update_last_used up now id keys
carry_out up now (concurrent_call id delta) keys = update_concurrent up now id delta keys
carry_out up now (delete_call id) keys = delete up id keys
carry_out up now (reset_call id) keys = reset_circuit up now id keys
