-- ===== src/Keypool/PoolKey.antt =====
-- internal/keypool/types.go. A method returns its result and the key after it; `now` is what
-- time.Now gives, in nanoseconds after Go's zero time, which is the time 0. The configured numbers
-- are integers, since nothing keeps them from being negative; the three counters start at 0 and are
-- never taken below, so they are natural numbers, and their limits keep them from wrapping.
pub mod Limits
use go_key_pool_system.Prelude.{
  ℕ, ◌+◌, ◌-◌, ◌*◌, String, Bool, true, false, Option, some, none, ltb, if◌then◌else◌,
}
use go_key_pool_system.Prelude.Int.{ℤ, pos, leb_ℤ}
use go_key_pool_system.Keypool.CircuitBreaker.{CircuitBreaker}

pub record PoolKey : Type 0 where
  pub id : String
  pub name : String
  pub key_encrypted : String
  pub weight : ℤ
  pub rate_limit_per_minute : ℤ
  pub rate_limit_per_day : ℤ
  pub concurrent_limit : ℤ
  pub current_concurrent : ℕ
  pub minute_counter : ℕ
  pub day_counter : ℕ
  pub minute_reset_at : ℕ
  pub day_reset_at : ℕ
  pub circuit_breaker : Option CircuitBreaker

-- time.Minute and 24 * time.Hour
abbrev pub minute : ℕ
minute = 60000000000

abbrev pub day : ℕ
day = 24 * (60 * minute)

unfoldable pub try_concurrent_acquire : PoolKey → Bool × PoolKey
try_concurrent_acquire k =
    if leb_ℤ k.concurrent_limit (pos k.current_concurrent)
    then (false, k)
    else (true, record k { current_concurrent = k.current_concurrent + 1 })

unfoldable pub concurrent_release : PoolKey → PoolKey
concurrent_release k =
    if ltb 0 k.current_concurrent
    then record k { current_concurrent = k.current_concurrent - 1 }
    else k

-- `if now.After(k.minuteResetAt)` and its body.
unfoldable pub reset_minute : ℕ → PoolKey → PoolKey
reset_minute now k =
    if ltb k.minute_reset_at now
    then record k { minute_counter = 0; minute_reset_at = now + minute }
    else k

-- `if now.After(k.dayResetAt)` and its body.
unfoldable pub reset_day : ℕ → PoolKey → PoolKey
reset_day now k =
    if ltb k.day_reset_at now then record k { day_counter = 0; day_reset_at = now + day } else k

-- The limit checks and the counting.
unfoldable pub count_request : PoolKey → Bool × PoolKey
count_request k =
    if leb_ℤ k.rate_limit_per_minute (pos k.minute_counter)
    then (false, k)
    else if leb_ℤ k.rate_limit_per_day (pos k.day_counter)
    then (false, k)
    else (true, record k { minute_counter = k.minute_counter + 1; day_counter = k.day_counter + 1 })

unfoldable pub try_rate_limit : ℕ → PoolKey → Bool × PoolKey
try_rate_limit now k = count_request (reset_day now (reset_minute now k))
