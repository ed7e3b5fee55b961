-- ===== src/Worker/Retry/Bounds.antt =====
-- The delays of CalculateBackoff in internal/worker/retry.go.
use Prim.Native.Nat.{min}
use go_key_pool_system.Prelude.{
  ℕ, ◌+◌, ◌*◌, ◌/◌, ◌^◌, ◌≤◌, ◌<◌, ◌≡◌, ◌∙◌, sym, ap, subst, true, false, ltb, arith, if◌then◌else◌,
  dec_lt, lt→ltb,
}
use go_key_pool_system.Prelude.Int.{pos}
use go_key_pool_system.Config.HotReload.{HotReloadConfig}
use go_key_pool_system.Worker.Retry.{Float64, int64, milliseconds, backoff_delay, calculate_backoff}

-- What IEEE 754 says of the numbers that CalculateBackoff meets: integers up to 2^53 are exact, so are
-- products of a number from 1 on with a power of 2 up to there; a greater one, also an infinite one, is
-- above them; and the operations keep the order of numbers from 0 to 2^53. The truncation
-- of a number that is not negative and small enough is that number without its fraction.
pub record Ieee (float : Float64) : Type 1 where
  pub at_most : float.Float → float.Float → Type 0
  pub of_ℕ : (a b : ℕ) → a ≤ b → b ≤ 2 ^ 53 → at_most (float.of_int (pos a)) (float.of_int (pos b))
  pub below_exact :
      (a b : ℕ)
      → a ≤ 2 ^ 53
      → b ≤ 2 ^ 53
      → float.below (float.of_int (pos a)) (float.of_int (pos b)) ≡ ltb a b
  pub pow_exact :
      (a n : ℕ)
      → 1 ≤ a
      → a * 2 ^ n ≤ 2 ^ 53
      → float.mul (float.of_int (pos a)) (float.pow (float.of_int (pos 2)) (float.of_int (pos n)))
        ≡ float.of_int (pos (a * 2 ^ n))
  pub pow_large :
      (a n b : ℕ)
      → a ≤ 2 ^ 53
      → b ≤ 2 ^ 53
      → 2 ^ 53 < a * 2 ^ n
      → float.below (float.of_int (pos b)) (
          float.mul
            (float.of_int (pos a))
            (float.pow (float.of_int (pos 2)) (float.of_int (pos n))))
        ≡ true
  pub mul_mono :
      (x y z : float.Float)
      → at_most x y
      → at_most (float.of_int (pos 0)) x
      → at_most y (float.of_int (pos (2 ^ 53)))
      → at_most (float.of_int (pos 0)) z
      → at_most z (float.of_int (pos (2 ^ 53)))
      → at_most (float.mul x z) (float.mul y z)
  pub trans : (x y z : float.Float) → at_most x y → at_most y z → at_most x z
  pub add_mono :
      (a : ℕ) (y z : float.Float)
      → a ≤ 2 ^ 53
      → at_most y z
      → at_most (float.of_int (pos 0)) y
      → at_most z (float.of_int (pos (2 ^ 53)))
      → at_most (float.add (float.of_int (pos a)) y) (float.add (float.of_int (pos a)) z)
  pub mul_zero :
      (a : ℕ)
      → a ≤ 2 ^ 53
      → float.mul (float.of_int (pos 0)) (float.of_int (pos a)) ≡ float.of_int (pos 0)
  pub mul_one :
      (a : ℕ)
      → a ≤ 2 ^ 53
      → float.mul (float.of_int (pos 1)) (float.of_int (pos a)) ≡ float.of_int (pos a)
  pub half_nonneg : at_most (float.of_int (pos 0)) float.half
  pub half_small : at_most float.half (float.of_int (pos 1))
  pub zero_half : float.mul (float.of_int (pos 0)) float.half ≡ float.of_int (pos 0)
  pub half_below :
      (a : ℕ)
      → a ≤ 2 ^ 53
      → at_most (float.mul (float.of_int (pos a)) float.half) (float.of_int (pos a))
  pub half_exact :
      (a b : ℕ)
      → a ≤ 2 ^ 51
      → b ≤ 2 ^ 51
      → float.truncate
          (float.add (float.of_int (pos a)) (float.mul (float.of_int (pos b)) float.half))
        ≡ pos (a + b / 2)
  pub truncate_between :
      (x : float.Float) (low high : ℕ) (y z : float.Float)
      → at_most y x
      → at_most x z
      → float.truncate y ≡ pos low
      → float.truncate z ≡ pos high
      → (n : ℕ) × (float.truncate x ≡ pos n) × (low ≤ n) × (n ≤ high)

-- What rand.Float64 gives: a number from 0 to 1.
pub record IsRandom (float : Float64) (ieee : Ieee float) (r : float.Float) : Type 0 where
  pub nonneg : ieee.at_most (float.of_int (pos 0)) r
  pub at_most_one : ieee.at_most r (float.of_int (pos 1))

int64_small : (n : ℕ) → n < 2 ^ 63 → int64 n ≡ pos n
unfolding int64
int64_small n h = ground arith

not_ltb : (a b : ℕ) → ¬ a < b → ltb a b ≡ false
not_ltb a b h = ground arith

module _ (float : Float64) (ieee : Ieee float) {F : Type 0} (cfg : HotReloadConfig F) (b m : ℕ)
    (base_is : cfg.retry_base_delay_ms ≡ pos b) (max_is : cfg.retry_max_delay_ms ≡ pos m) where
  capped :
      (a : ℕ)
      → (if ltb m a then float.of_int (pos m) else float.of_int (pos a))
        ≡ float.of_int (pos (min a m))
  capped a = elim (dec_lt m a) [
    | yes h ↦ rw (lt→ltb m a h) (ap (λ (k : ℕ). float.of_int (pos k)) (omega (arith, h)))
    | no h ↦ rw (not_ltb m a h) (ap (λ (k : ℕ). float.of_int (pos k)) (omega (arith, h)))
  ]

  backoff_delay-min :
      (n : ℕ)
      → 1 ≤ b
      → b ≤ 2 ^ 53
      → m ≤ 2 ^ 53
      → backoff_delay float n cfg ≡ float.of_int (pos (min (b * 2 ^ n) m))
  unfolding backoff_delay
  backoff_delay-min n hp hb hm =
      rw (base_is, max_is)
        (elim (dec_lt (2 ^ 53) (b * 2 ^ n)) [
          | yes large ↦
              rw (ieee.pow_large b n m hb hm large)
                (ap (λ (k : ℕ). float.of_int (pos k)) (omega arith))
          | no small ↦
              rw
                (
                  ieee.pow_exact b n hp (omega (arith, small)),
                  ieee.below_exact m (b * 2 ^ n) hm (omega (arith, small)),
                )
                (capped (b * 2 ^ n))
        ])

  -- The jitter lies between nothing and half of the base delay.
  jittered :
      (r : float.Float) (a : ℕ)
      → IsRandom float ieee r
      → a ≤ 2 ^ 51
      → b ≤ 2 ^ 51
      → (n : ℕ) × (float.truncate (
            float.add
              (float.of_int (pos a))
              (float.mul (float.mul r (float.of_int (pos b))) float.half))
          ≡ pos n)
        × (a ≤ n)
        × (n ≤ a + b / 2)
  jittered r a random ha hb =
      let zero = float.of_int (pos 0) in
      let base = float.of_int (pos b) in
      let with_jitter =
        λ (x : float.Float). float.add (float.of_int (pos a)) (float.mul x float.half) in
      let nonneg = ieee.of_ℕ 0 b (omega arith) (omega (arith, hb)) in
      let small = ieee.of_ℕ b (2 ^ 53) (omega (arith, hb)) (omega arith) in
      let one_small = ieee.of_ℕ 1 (2 ^ 53) (omega arith) (omega arith) in
      let nothing = ieee.of_ℕ 0 0 (omega arith) (omega arith) in
      let half_small = ieee.trans _ _ _ ieee.half_small one_small in
      let low : ieee.at_most zero (float.mul r base) =
        subst (λ x. ieee.at_most x (float.mul r base)) (ieee.mul_zero b (omega (arith, hb)))
          (ieee.mul_mono _ _ _ random.nonneg nothing (ieee.trans _ _ _ random.at_most_one one_small)
            nonneg small) in
      let high : ieee.at_most (float.mul r base) base =
        subst (λ x. ieee.at_most (float.mul r base) x) (ieee.mul_one b (omega (arith, hb)))
          (ieee.mul_mono _ _ _ random.at_most_one random.nonneg one_small nonneg small) in
      let high_small = ieee.trans _ _ _ high small in
      let low_half = ieee.mul_mono _ _ _ low nothing high_small ieee.half_nonneg half_small in
      let high_half = ieee.mul_mono _ _ _ high low small ieee.half_nonneg half_small in
      let some_jitter : ieee.at_most zero (float.mul (float.mul r base) float.half) =
        subst (λ x. ieee.at_most x (float.mul (float.mul r base) float.half)) ieee.zero_half
          low_half in
      let base_half = ieee.trans _ _ _ (ieee.half_below b (omega (arith, hb))) small in
      ieee.truncate_between (with_jitter (float.mul r base)) a (a + b / 2) (with_jitter zero)
        (with_jitter base)
        (ieee.add_mono a _ _ (omega (arith, ha)) low_half
          (subst (λ x. ieee.at_most zero x) (sym ieee.zero_half) nothing)
          (ieee.trans _ _ _ high_half base_half))
        (ieee.add_mono a _ _ (omega (arith, ha)) high_half some_jitter base_half)
        (ieee.half_exact a 0 ha (omega arith) ∙ ap pos (omega arith)) (ieee.half_exact a b ha hb)

  -- Where the base delay is 1 at least and the two delays of the configuration are small enough for the result to fit 64 bits, the delay
  -- is a whole number of milliseconds, at least the base delay doubled for each attempt, or the
  -- maximal delay where that is less, and beyond it by half of the base delay at most.
  pub calculate_backoff_bounds :
      (r : float.Float) (attempt : ℕ)
      → IsRandom float ieee r
      → 1 ≤ b
      → (m + b) * 1000000 < 2 ^ 63
      → (ms : ℕ) × (calculate_backoff float r attempt cfg ≡ pos (ms * 1000000))
        × (min (b * 2 ^ attempt) m ≤ ms)
        × (ms ≤ min (b * 2 ^ attempt) m + b / 2)
  unfolding calculate_backoff milliseconds
  calculate_backoff_bounds r attempt random positive fits =
      let a = min (b * 2 ^ attempt) m in
      let (ms, e, low, high) = jittered r a random (omega (arith, fits)) (omega (arith, fits)) in
      (
        ms,
        rw
            (
              backoff_delay-min attempt positive (omega (arith, fits)) (omega (arith, fits)),
              base_is,
              e,
            )
            (int64_small (ms * 1000000) (omega (arith, fits, high))),
        low,
        high,
      )
