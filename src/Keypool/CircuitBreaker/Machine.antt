-- ===== src/Keypool/CircuitBreaker/Machine.antt =====
-- The breaker of internal/keypool/circuitbreaker.go as a state machine over its timed calls.
use go_key_pool_system.Prelude.{
  ℕ, ◌+◌, ◌<◌, ◌≡◌, ◌≢◌, refl, ◌⊎◌, inl, inr, List, [], ◌∷◌, map, arith, length, if◌then◌else◌,
}
use go_key_pool_system.Prelude.Int.{ℤ, pos, sub_ℕ, leb_ℤ, ◌≤ℤ◌, ◌<ℤ◌}
use go_key_pool_system.Db.Adapter.{CircuitState, closed, open_state, half_open}
use go_key_pool_system.Keypool.CircuitBreaker.{
  CircuitBreaker, new, allow_request, record_success, record_failure, reset,
}

-- The calls that other code makes.
pub data Call : Type 0 where
  allows : ℕ → Call
  succeeds : Call
  fails : ℕ → Call
  resets : Call

unfoldable pub step : CircuitBreaker → Call → CircuitBreaker
unfolding allow_request record_success record_failure reset
step cb (allows now) = (allow_request now cb).1
step cb succeeds = record_success cb
step cb (fails now) = record_failure now cb
step cb resets = reset cb

unfoldable pub run : CircuitBreaker → List Call → CircuitBreaker
unfolding step
run cb [] = cb
run cb (c ∷ cs) = run (step cb c) cs

-- A closed breaker that has counted failures is below its threshold, and one that is not closed has
-- reached it.
abbrev pub IsValid : CircuitBreaker → Type 0
IsValid cb =
    ((cb.state ≡ closed)
      × ((cb.failure_count ≡ 0) ⊎ (pos cb.failure_count <ℤ cb.failure_threshold)))
    ⊎ ((cb.state ≢ closed) × (cb.failure_threshold ≤ℤ pos cb.failure_count))

new-IsValid : (threshold duration : ℤ) → IsValid (new threshold duration)
unfolding new
new-IsValid threshold duration = ground arith

step-IsValid : (cb : CircuitBreaker) (c : Call) → IsValid cb → IsValid (step cb c)
unfolding step
step-IsValid cb (allows now) v = ground arith
step-IsValid cb succeeds v = ground arith
step-IsValid cb (fails now) v = ground arith
step-IsValid cb resets v = ground arith

run-IsValid_from : (cb : CircuitBreaker) (cs : List Call) → IsValid cb → IsValid (run cb cs)
unfolding run
run-IsValid_from cb [] v = v
run-IsValid_from cb (c ∷ cs) v = run-IsValid_from (step cb c) cs (step-IsValid cb c v)

-- In every history of a new breaker, a closed breaker that has counted failures has counted fewer
-- than its threshold, and an open or half-open one has counted at least its threshold.
pub run-IsValid :
    (threshold duration : ℤ) (cs : List Call) → IsValid (run (new threshold duration) cs)
run-IsValid threshold duration cs = run-IsValid_from _ cs (new-IsValid threshold duration)

-- What a call may do to the state, read off the diagram in the comment above CircuitBreaker.
pub data Edge (cb : CircuitBreaker) : Call → CircuitState → Type 0 where
  stays : {c : Call} {s : CircuitState} → s ≡ cb.state → Edge cb c s
  cools :
      {now : ℕ}
      → cb.state ≡ open_state
      → cb.open_duration ≤ℤ sub_ℕ now cb.last_failed_at
      → Edge cb (allows now) half_open
  closes : {c : Call} → (c ≡ succeeds) ⊎ (c ≡ resets) → Edge cb c closed
  trips :
      {now : ℕ}
      → cb.failure_threshold ≤ℤ pos (cb.failure_count + 1)
      → Edge cb (fails now) open_state

-- Every call follows an edge: a breaker becomes half-open only from open and after its open
-- duration, becomes open only by a failure that reaches the threshold, and closes only by a success
-- or a reset.
pub step-Edge : (cb : CircuitBreaker) (c : Call) → Edge cb c (step cb c).state
unfolding step
step-Edge cb (allows now) = grind (arith, stays, cools)
step-Edge cb succeeds = closes (inl refl)
step-Edge cb (fails now) = grind (arith, stays, trips)
step-Edge cb resets = closes (inr refl)

-- The probe of a half-open breaker decides: a failure opens it again, whatever came before, and a
-- success closes it and clears the count.
pub half_open_decides :
    (cb : CircuitBreaker) (now : ℕ)
    → IsValid cb
    → cb.state ≡ half_open
    → ((step cb (fails now)).state ≡ open_state)
      × ((step cb succeeds).state ≡ closed)
      × ((step cb succeeds).failure_count ≡ 0)
unfolding step
half_open_decides cb now v h = ground arith

-- The state after `n` failures counted in a closed breaker.
abbrev pub state_after : ℤ → ℕ → CircuitState
state_after threshold n = if leb_ℤ threshold (pos n) then open_state else closed

record Counted (cb : CircuitBreaker) (threshold : ℤ) (n : ℕ) : Type 0 where
  count : cb.failure_count ≡ n
  same : cb.failure_threshold ≡ threshold
  state : 0 < n → cb.state ≡ state_after threshold n
  start : n ≡ 0 → cb.state ≡ closed

run-Counted :
    (cb : CircuitBreaker) (threshold : ℤ) (n : ℕ) (times : List ℕ)
    → Counted cb threshold n
    → Counted (run cb (map fails times)) threshold (n + length times)
unfolding run step
run-Counted cb threshold n [] c = ground arith
run-Counted cb threshold n (t ∷ times) c =
    ground (arith, run-Counted (step cb (fails t)) threshold (n + 1) times)

-- Failures in a row open a new breaker exactly when there are as many as the threshold asks, and at
-- least one.
pub run-fails :
    (threshold duration : ℤ) (times : List ℕ)
    → 0 < length times
    → (run (new threshold duration) (map fails times)).state ≡ state_after threshold (length times)
unfolding new
run-fails threshold duration times h =
    ground (arith, run-Counted (new threshold duration) threshold 0 times start)
  where
    start : Counted (new threshold duration) threshold 0
    start = ground arith
