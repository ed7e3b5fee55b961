-- ===== src/Keypool/Marks.antt =====
-- MarkSuccess and MarkFailed of internal/keypool/manager.go, with the writes to the database in order.
-- They hold no mutex of the manager, and call State, RecordFailure or RecordSuccess, State and
-- FailureCount each under the mutex of the breaker: `mark_success` and `mark_failed` are calls that no
-- other call on the same breaker comes between. One in between changes what is read, and with it the
-- writes, which `failure_writes` gives; it changes nothing of what MarkFailed does to the breaker.
use go_key_pool_system.Prelude.{
  ℕ, String, Bool, true, false, none, some, List, [], ◌∷◌, if◌then◌else◌,
}
use go_key_pool_system.Prelude.Store.{update}
use go_key_pool_system.Db.Adapter.{
  CircuitState, closed, open_state, half_open, EventType, circuit_opened, circuit_closed,
  key_failed, Write, create_key_event, update_api_key_last_used, update_api_key_health,
}
use go_key_pool_system.Keypool.CircuitBreaker
use go_key_pool_system.Keypool.CircuitBreaker.{CircuitBreaker}
use go_key_pool_system.Keypool.Manager.{Manager}

-- previousState != newState
unfoldable pub same_state : CircuitState → CircuitState → Bool
same_state closed closed = true
same_state open_state open_state = true
same_state half_open half_open = true
same_state _ _ = false

-- The event that logKeyEvent writes; its ID is left empty.
abbrev pub key_event : String → EventType → String → Write
key_event key_id event_type message =
    create_key_event
      (record { id = ""; key_id = key_id; event_type = event_type; message = some message })

abbrev pub with_breaker : Manager → ℕ → CircuitBreaker → Manager
with_breaker m k cb = record m {
  store = update m.store k (record (m.store k) { circuit_breaker = some cb });
}

unfoldable pub mark_success : ℕ → Manager → Manager × List Write
mark_success k m = elim (m.store k).circuit_breaker [
  | none ↦ (m, update_api_key_last_used (m.store k).id ∷ [])
  | some cb ↦
      let event =
        key_event (m.store k).id circuit_closed "circuit breaker closed after successful request" in
      let used = update_api_key_last_used (m.store k).id in
      (
        with_breaker m k (CircuitBreaker.record_success cb),
        if same_state cb.state closed then used ∷ [] else event ∷ used ∷ [],
      )
]

-- The event of a failure that changed the state.
abbrev pub failure_event : String → CircuitState → Write
failure_event key_id open_state =
    key_event key_id circuit_opened "circuit breaker opened after repeated failures"
failure_event key_id closed = key_event key_id key_failed "key failed"
failure_event key_id half_open = key_event key_id key_failed "key failed"

-- The writes, by the state read first and the breaker as it is read after the failure.
abbrev pub failure_writes : String → CircuitState → CircuitBreaker → List Write
failure_writes id previous cb =
    let health = update_api_key_health id (same_state cb.state closed) cb.failure_count cb.state in
    if same_state previous cb.state then health ∷ [] else failure_event id cb.state ∷ health ∷ []

unfoldable pub mark_failed : ℕ → ℕ → Manager → Manager × List Write
mark_failed now k m = elim (m.store k).circuit_breaker [
  | none ↦ (m, [])
  | some cb ↦
      let cb' = CircuitBreaker.record_failure now cb in
      (with_breaker m k cb', failure_writes (m.store k).id cb.state cb')
]
