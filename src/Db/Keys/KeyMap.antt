-- ===== src/Db/Keys/KeyMap.antt =====
-- What the operations on keys promise: the table is a finite map from IDs to keys.
use go_key_pool_system.Prelude.{ℕ, String, Bool, Option, none, some, if◌then◌else◌}
use go_key_pool_system.Db.Adapter.{ApiKey}
use go_key_pool_system.Db.Table.{Answer, ok, err, unavailable, constraint, not_found}
use go_key_pool_system.Db.Table.Rows.{bind, put}
use go_key_pool_system.Db.Keys.{
  inserted, KeyCall, create_call, weight_call, health_call, last_used_call, concurrent_call,
  delete_call, reset_call, reweighted, with_health, used, with_concurrent, with_circuit_reset,
}

abbrev pub KeyMap : Type 0
KeyMap = String → Option ApiKey

-- An operation on a key that must be there: `change` is what becomes of it.
abbrev pub at_key : Bool → String → (ApiKey → Option ApiKey) → KeyMap → Answer Unit × KeyMap
at_key up id change m =
    if up
    then elim (m id) [ none ↦ (err not_found, m) | some key ↦ (ok tt, put id (change key) m) ]
    else (err unavailable, m)

-- An operation on a key that need not be there.
abbrev pub at_any_key : Bool → String → (ApiKey → ApiKey) → KeyMap → Answer Unit × KeyMap
at_any_key up id change m =
    if up then (ok tt, put id (bind (m id) (λ key. some (change key))) m) else (err unavailable, m)

-- What each call promises of the map.
abbrev pub promised : Bool → ℕ → KeyCall → KeyMap → Answer Unit × KeyMap
promised up now (create_call key) m =
    if up
    then elim (m key.id) [
      | none ↦ (ok tt, put key.id (some (inserted now key)) m)
      | some old ↦ (err constraint, m)
    ]
    else (err unavailable, m)
promised up now (weight_call id weight) m = at_key up id (λ key. some (reweighted now weight key)) m
promised up now (health_call id healthy count state) m =
    at_key up id (λ key. some (with_health now healthy count state key)) m
promised up now (last_used_call id) m = at_any_key up id (used now) m
promised up now (concurrent_call id delta) m = at_any_key up id (with_concurrent now delta) m
promised up now (delete_call id) m = at_key up id (λ key. none) m
promised up now (reset_call id) m = at_key up id (λ key. some (with_circuit_reset now key)) m
