-- ===== src/Keypool/Manager/Marking.antt =====
-- MarkSuccess and MarkFailed of internal/keypool/manager.go.
use go_key_pool_system.Prelude.{
  ℕ, ◌≡◌, String, not, ◌&&◌, some, [], ◌∷◌, ◌++◌, arith, if◌then◌else◌,
}
use go_key_pool_system.Db.Adapter.{closed, open_state, circuit_opened, Write, update_api_key_health}
use go_key_pool_system.Keypool.CircuitBreaker.{CircuitBreaker, record_failure}
use go_key_pool_system.Keypool.Manager.{Manager}
use go_key_pool_system.Keypool.Marks.{key_event, same_state, mark_success, mark_failed}
use go_key_pool_system.Keypool.Manager.GetKey.{slots}

-- The row that MarkFailed writes for a breaker.
abbrev pub health_of : String → CircuitBreaker → Write
health_of id cb = update_api_key_health id (same_state cb.state closed) cb.failure_count cb.state

-- Where no other call on the breaker comes between, a failure is written as the state of the breaker
-- after it, and before that, if it opened the breaker and only then, as the event that it opened. The
-- breaker in the pool is the one written.
pub mark_failed_writes :
    (now k : ℕ) (m : Manager) (cb : CircuitBreaker)
    → (m.store k).circuit_breaker ≡ some cb
    → let cb' = record_failure now cb in
      let id = (m.store k).id in
      (((mark_failed now k m).0.store k).circuit_breaker ≡ some cb')
      × ((mark_failed now k m).1
          ≡ (if not (same_state cb.state open_state) && same_state cb'.state open_state
              then key_event id circuit_opened "circuit breaker opened after repeated failures" ∷ []
              else [])
            ++ health_of id cb' ∷ [])
unfolding mark_failed record_failure same_state
mark_failed_writes now k m cb h = rw (h, mark_failed) (ground arith)

pub mark_failed-slots :
    (now k : ℕ) (m : Manager) (j : ℕ) → slots (mark_failed now k m).0 j ≡ slots m j
unfolding mark_failed
mark_failed-slots now k m j = ground arith

pub mark_success-slots : (k : ℕ) (m : Manager) (j : ℕ) → slots (mark_success k m).0 j ≡ slots m j
unfolding mark_success
mark_success-slots k m j = ground arith
