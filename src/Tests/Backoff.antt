-- ===== src/Tests/Backoff.antt =====
-- CalculateBackoff at concrete inputs: a float is a number of halves.
use Prim.Native.Nat.{min}
use go_key_pool_system.Prelude.{
  ℕ, ◌+◌, ◌*◌, ◌/◌, ◌^◌, ◌≤◌, ◌<◌, ◌≡◌, refl, ap, true, arith, ltb, lt→ltb,
}
use go_key_pool_system.Prelude.Int.{ℤ, pos, negsuc}
use go_key_pool_system.Worker.Retry.{Float64, calculate_backoff}
use go_key_pool_system.Worker.Retry.Bounds.{Ieee, calculate_backoff_bounds}
use go_key_pool_system.Tests.Keypool.{hot}

abbrev halves : ℤ → ℕ
halves (pos n) = 2 * n
halves (negsuc n) = 0

abbrev float : Float64
float = record {
  Float = ℕ;
  of_int = halves;
  half = 1;
  add = λ x y. x + y;
  mul = λ x y. x * y / 2;
  pow = λ x y. 2 * (x / 2) ^ (y / 2);
  below = ltb;
  truncate = λ x. pos (x / 2);
}

double_product : (a k : ℕ) → 2 * a * (2 * k) / 2 ≡ 2 * (a * k)
double_product a k = grind arith

pow_doubled : (n : ℕ) → 2 * (2 * 2 / 2) ^ (2 * n / 2) ≡ 2 * 2 ^ n
pow_doubled n = let e : 2 * n / 2 ≡ n = omega arith in rw e refl

doubled_below : (a b : ℕ) → ltb (2 * a) (2 * b) ≡ ltb a b
doubled_below a b = ground arith

halved_mono : (x y z : ℕ) → x ≤ y → x * z / 2 ≤ y * z / 2
halved_mono x y z h = let p : x * z ≤ y * z = grind arith in omega (arith, p)

large_below :
    (a n b : ℕ)
    → b ≤ 2 ^ 53
    → 2 ^ 53 < a * 2 ^ n
    → ltb (2 * b) (2 * a * (2 * (2 * 2 / 2) ^ (2 * n / 2)) / 2) ≡ true
large_below a n b hb h =
    rw (pow_doubled n, double_product a (2 ^ n)) (lt→ltb _ _ (omega (arith, hb, h)))

ieee : Ieee float
ieee = record {
  at_most = ◌≤◌;
  of_ℕ = λ a b h k. omega (arith, h);
  below_exact = λ a b ha hb. doubled_below a b;
  pow_exact = λ a n p h. rw (pow_doubled n) (double_product a (2 ^ n));
  pow_large = λ a n b ha hb h. large_below a n b hb h;
  mul_mono = λ x y z h l u k v. halved_mono x y z h;
  trans = λ x y z h k. omega (arith, h, k);
  add_mono = λ a y z s h l u. omega (arith, h);
  mul_zero = λ a h. omega arith;
  mul_one = λ a h. omega arith;
  half_nonneg = omega arith;
  half_small = omega arith;
  zero_half = omega arith;
  half_below = λ a h. omega arith;
  half_exact = λ a b ha hb. ap pos (omega arith);
  truncate_between =
      λ x low high y z below above l h. (x / 2, refl, ground (arith, l), ground (arith, h));
}

calculate_backoff_bounds_example :
    (ms : ℕ) × (calculate_backoff float 1 3 hot ≡ pos (ms * 1000000))
    × (min (1000 * 2 ^ 3) 30000 ≤ ms)
    × (ms ≤ min (1000 * 2 ^ 3) 30000 + 1000 / 2)
unfolding ieee
calculate_backoff_bounds_example =
    calculate_backoff_bounds float ieee hot 1000 30000 refl refl 1 3
      (record { nonneg = omega arith; at_most_one = omega arith }) (omega arith) (omega arith)
