-- ===== src/Keypool/PoolKey/Limits.antt =====
-- What the limits of internal/keypool/types.go promise.
use go_key_pool_system.Prelude.{
  ℕ, ◌+◌, ◌-◌, ◌≤◌, ◌<◌, ◌≡◌, ◌⊎◌, Bool, true, false, List, [], ◌∷◌, arith, if◌then◌else◌,
}
use go_key_pool_system.Prelude.Int.{pos, ◌≤ℤ◌, ◌<ℤ◌, pos_part}
use go_key_pool_system.Keypool.PoolKey.{
  PoolKey, minute, day, try_concurrent_acquire, concurrent_release, try_rate_limit, reset_minute,
  reset_day, count_request,
}

-- Of the calls to TryConcurrentAcquire, the outcome: a slot below the limit, or none at it.
abbrev pub Acquires : PoolKey → Bool × PoolKey → Type 0
Acquires k r =
    ((r.0 ≡ true)
      × (pos k.current_concurrent <ℤ k.concurrent_limit)
      × (r.1.current_concurrent ≡ k.current_concurrent + 1)
      × (concurrent_release r.1 ≡ k))
    ⊎ ((r.0 ≡ false) × (k.concurrent_limit ≤ℤ pos k.current_concurrent) × (r.1 ≡ k))

-- A slot is given and counted where the key is below its limit, and a release then restores the
-- key; at the limit it is refused and the key is unchanged.
pub try_concurrent_acquire-Acquires : (k : PoolKey) → Acquires k (try_concurrent_acquire k)
unfolding try_concurrent_acquire concurrent_release
try_concurrent_acquire-Acquires k = ground arith

-- How many of the calls at these times TryRateLimit lets through.
unfoldable pub served : PoolKey → List ℕ → ℕ
served k [] = 0
served k (now ∷ times) = let r = try_rate_limit now k in (if r.0 then 1 else 0) + served r.1 times

abbrev pub Until : ℕ → List ℕ → Type 0
Until end [] = Unit {0}
Until end (t ∷ ts) = (t ≤ end) × Until end ts

served_minute :
    (k : PoolKey) (times : List ℕ)
    → Until k.minute_reset_at times
    → served k times ≤ pos_part k.rate_limit_per_minute - k.minute_counter
unfolding served try_rate_limit reset_minute reset_day count_request
served_minute k [] u = omega arith
served_minute k (t ∷ times) u = ground (arith, served_minute (try_rate_limit t k).1 times)

served_day :
    (k : PoolKey) (times : List ℕ)
    → Until k.day_reset_at times
    → served k times ≤ pos_part k.rate_limit_per_day - k.day_counter
unfolding served try_rate_limit reset_minute reset_day count_request
served_day k [] u = omega arith
served_day k (t ∷ times) u = ground (arith, served_day (try_rate_limit t k).1 times)

-- When the minute of a key has run out, a call begins a new one: of that call and any calls until
-- it ends, no more are let through than the limit per minute.
pub minute_window :
    (k : PoolKey) (now : ℕ) (times : List ℕ)
    → k.minute_reset_at < now
    → Until (now + minute) times
    → served k (now ∷ times) ≤ pos_part k.rate_limit_per_minute
unfolding served try_rate_limit reset_minute reset_day count_request
minute_window k now times h u = ground (arith, served_minute (try_rate_limit now k).1 times)

-- When the day of a key has run out, a call begins a new one: of that call and any calls until it
-- ends, no more are let through than the limit per day, whatever the minutes do meanwhile.
day_window :
    (k : PoolKey) (now : ℕ) (times : List ℕ)
    → k.day_reset_at < now
    → Until (now + day) times
    → served k (now ∷ times) ≤ pos_part k.rate_limit_per_day
unfolding served try_rate_limit reset_minute reset_day count_request
day_window k now times h u = ground (arith, served_day (try_rate_limit now k).1 times)
