-- ===== src/Keypool/CircuitBreaker.antt =====
-- internal/keypool/circuitbreaker.go.
-- A method under the mutex is a function; `now` is what time.Now gives there, in nanoseconds after
-- Go's zero time. `int` and time.Duration are integers; the failure count, which starts at 0 and
-- only grows, is a natural number, and does not wrap at 2^63.
pub mod Machine
use go_key_pool_system.Prelude.{ℕ, ◌+◌, ◌≤◌, ◌≡◌, refl, Bool, true, false, arith, if◌then◌else◌}
use go_key_pool_system.Db.Adapter.{CircuitState, closed, open_state, half_open}
use go_key_pool_system.Prelude.Int.{ℤ, pos, sub_ℕ, leb_ℤ, ◌≤ℤ◌}

pub record CircuitBreaker : Type 0 where
  pub state : CircuitState
  pub failure_count : ℕ
  pub last_failed_at : ℕ
  pub failure_threshold : ℤ
  pub open_duration : ℤ

unfoldable pub new : ℤ → ℤ → CircuitBreaker
new failure_threshold open_duration = record {
  state = closed;
  failure_count = 0;
  last_failed_at = 0;
  failure_threshold = failure_threshold;
  open_duration = open_duration;
}

-- time.Since(cb.lastFailedAt) >= cb.openDuration
abbrev pub has_cooled : ℕ → CircuitBreaker → Bool
has_cooled now cb = leb_ℤ cb.open_duration (sub_ℕ now cb.last_failed_at)

-- The switch of AllowRequest. Its default case has no counterpart, since only the three states are
-- ever assigned.
abbrev allow_in : CircuitState → ℕ → CircuitBreaker → Bool × CircuitBreaker
allow_in closed now cb = (true, cb)
allow_in open_state now cb =
    if has_cooled now cb then (true, record cb { state = half_open }) else (false, cb)
allow_in half_open now cb = (true, cb)

unfoldable pub allow_request : ℕ → CircuitBreaker → Bool × CircuitBreaker
allow_request now cb = allow_in cb.state now cb

unfoldable pub record_success : CircuitBreaker → CircuitBreaker
record_success cb = record cb { failure_count = 0; state = closed }

unfoldable pub record_failure : ℕ → CircuitBreaker → CircuitBreaker
record_failure now cb =
    let count = cb.failure_count + 1 in
    record cb {
      failure_count = count;
      last_failed_at = now;
      state = if leb_ℤ cb.failure_threshold (pos count) then open_state else cb.state;
    }

unfoldable pub reset : CircuitBreaker → CircuitBreaker
reset cb = record cb { state = closed; failure_count = 0; last_failed_at = 0 }
