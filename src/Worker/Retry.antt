-- ===== src/Worker/Retry.antt =====
-- internal/worker/retry.go. Floating-point numbers are a parameter; rand.Float64() is an argument.
-- An attempt is a number, since the callers give none below 0.
pub mod Bounds
use go_key_pool_system.Prelude.{
  ℕ, ◌+◌, ◌-◌, ◌*◌, ◌%◌, ◌^◌, ◌≤◌, ◌<◌, ◌≡◌, Bool, true, false, ltb, if◌then◌else◌,
}
use go_key_pool_system.Prelude.Int.{ℤ, pos, negsuc, ltb_ℤ}
use go_key_pool_system.Config.HotReload.{HotReloadConfig}

abbrev pub should_retry : {F : Type 0} → ℤ → HotReloadConfig F → Bool
should_retry current_attempts cfg = ltb_ℤ current_attempts cfg.retry_max_attempts

-- float64, as far as CalculateBackoff uses it. `truncate` is the conversion to an integer.
pub record Float64 : Type 1 where
  pub Float : Type 0
  pub of_int : ℤ → Float
  pub half : Float
  pub add : Float → Float → Float
  pub mul : Float → Float → Float
  pub pow : Float → Float → Float
  pub below : Float → Float → Bool
  pub truncate : Float → ℤ

abbrev pub int64_mod : ℕ
int64_mod = 2 ^ 64

-- The int64 with the bits of a number.
unfoldable pub int64 : ℕ → ℤ
int64 n =
    let bits = n % int64_mod in
    if ltb bits (2 ^ 63) then pos bits else negsuc (int64_mod - 1 - bits)

-- The product of an integer and time.Millisecond, in nanoseconds.
unfoldable pub milliseconds : ℤ → ℤ
milliseconds (pos n) = int64 (n * 1000000)
milliseconds (negsuc n) = int64 ((int64_mod - (n + 1) % int64_mod) * 1000000)

module _ (float : Float64) where
  open float use {Float, of_int, half, add, mul, pow, below, truncate}

  -- base * 2^attempt, or the bound where that is less.
  unfoldable pub backoff_delay : {F : Type 0} → ℕ → HotReloadConfig F → Float
  backoff_delay attempt cfg =
      let delay =
        mul (of_int cfg.retry_base_delay_ms) (pow (of_int (pos 2)) (of_int (pos attempt))) in
      let max_delay = of_int cfg.retry_max_delay_ms in
      if below max_delay delay then max_delay else delay

  unfoldable pub calculate_backoff : {F : Type 0} → Float → ℕ → HotReloadConfig F → ℤ
  calculate_backoff random attempt cfg =
      let jitter = mul (mul random (of_int cfg.retry_base_delay_ms)) half in
      milliseconds (truncate (add (backoff_delay attempt cfg) jitter))
