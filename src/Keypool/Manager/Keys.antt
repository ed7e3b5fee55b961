-- ===== src/Keypool/Manager/Keys.antt =====
-- Lemmas on the steps of GetKey in internal/keypool/manager.go: one key, and the choice of one.
use mathlib.Core.Option.{some-injective}
use go_key_pool_system.Prelude.{
  ℕ, zero, suc, ◌+◌, ◌≤◌, ◌≡◌, refl, subst, inl, inr, Bool, true, false, Option, none, some, List,
  [], ◌∷◌, arith, ◌==◌, if◌then◌else◌, length, get_elem?, Bool-cases,
}
use go_key_pool_system.Prelude.Int.{pos, negsuc, ◌≤ℤ◌, ◌<ℤ◌}
use go_key_pool_system.Prelude.Members.{In}
use go_key_pool_system.Db.Adapter.{open_state}
use go_key_pool_system.Keypool.CircuitBreaker.{allow_request}
use go_key_pool_system.Keypool.PoolKey.{
  PoolKey, count_request, reset_minute, reset_day, try_concurrent_acquire, try_rate_limit,
  concurrent_release,
}
use go_key_pool_system.Keypool.RoundRobin
use go_key_pool_system.Keypool.RoundRobin.{RoundRobin}
use go_key_pool_system.Keypool.WeightedRoundRobin
use go_key_pool_system.Keypool.WeightedRoundRobin.{Weights, accumulate, highest}
use go_key_pool_system.Keypool.WeightedRoundRobin.Accumulate.{highest-Best}
use go_key_pool_system.Keypool.Manager.{
  Manager, Strategy, round_robin, weighted_round_robin, select_by, current_strategy, allows, select,
  try_key, remove_key,
}

-- The breaker of a key, if it has one, is not open.
unfoldable pub is_allowed : PoolKey → Bool
is_allowed k = elim k.circuit_breaker [
  | none ↦ true
  | some cb ↦ elim cb.state [ open_state ↦ false | _ ↦ true ]
]

abbrev pub IsAllowed : PoolKey → Type 0
IsAllowed k = is_allowed k ≡ true

-- The requests of the minute and of the day that `now` falls into.
abbrev pub this_minute : ℕ → PoolKey → ℕ
this_minute now k = (reset_minute now k).minute_counter

abbrev pub this_day : ℕ → PoolKey → ℕ
this_day now k = (reset_day now k).day_counter

-- AllowRequest touches the breaker alone; it lets a key through only with its breaker not open,
-- and keeps it so.
pub record Allows (now : ℕ) (k : PoolKey) (r : Bool × PoolKey) : Type 0 where
  pub slots : r.1.current_concurrent ≡ k.current_concurrent
  pub limit : r.1.concurrent_limit ≡ k.concurrent_limit
  pub through : r.0 ≡ true → IsAllowed r.1
  pub keeps : IsAllowed k → IsAllowed r.1
  pub minute : this_minute now r.1 ≡ this_minute now k
  pub day : this_day now r.1 ≡ this_day now k

pub allows-Allows : (now : ℕ) (k : PoolKey) → Allows now k (allows now k)
unfolding allows allow_request is_allowed reset_minute reset_day
allows-Allows now k = ground arith

-- TryRateLimit leaves the slots and the breaker alone, and counts within the limits.
pub record Rates (now : ℕ) (k : PoolKey) (r : Bool × PoolKey) : Type 0 where
  breaker : r.1.circuit_breaker ≡ k.circuit_breaker
  limit : r.1.concurrent_limit ≡ k.concurrent_limit
  pub slots : r.1.current_concurrent ≡ k.current_concurrent
  per_minute : r.0 ≡ true → pos r.1.minute_counter ≤ℤ r.1.rate_limit_per_minute
  per_day : r.0 ≡ true → pos r.1.day_counter ≤ℤ r.1.rate_limit_per_day
  counted_minute : r.0 ≡ true → r.1.minute_counter ≡ this_minute now k + 1
  counted_day : r.0 ≡ true → r.1.day_counter ≡ this_day now k + 1
  kept_minute : r.0 ≡ false → this_minute now r.1 ≡ this_minute now k
  kept_day : r.0 ≡ false → this_day now r.1 ≡ this_day now k

pub try_rate_limit-Rates : (now : ℕ) (k : PoolKey) → Rates now k (try_rate_limit now k)
unfolding try_rate_limit count_request reset_minute reset_day
try_rate_limit-Rates now k = ground arith

-- One try: a slot and a request are counted within the limits, or the slots and the requests of the
-- two windows are as before.
pub record Tries (now : ℕ) (k : PoolKey) (r : Bool × PoolKey) : Type 0 where
  pub breaker : r.1.circuit_breaker ≡ k.circuit_breaker
  pub limit : r.1.concurrent_limit ≡ k.concurrent_limit
  pub slots : r.1.current_concurrent ≡ k.current_concurrent + (if r.0 then 1 else 0)
  pub room : r.0 ≡ true → pos k.current_concurrent <ℤ k.concurrent_limit
  pub per_minute : r.0 ≡ true → pos r.1.minute_counter ≤ℤ r.1.rate_limit_per_minute
  pub per_day : r.0 ≡ true → pos r.1.day_counter ≤ℤ r.1.rate_limit_per_day
  pub counted_minute : r.0 ≡ true → r.1.minute_counter ≡ this_minute now k + 1
  pub counted_day : r.0 ≡ true → r.1.day_counter ≡ this_day now k + 1
  pub kept_minute : r.0 ≡ false → this_minute now r.1 ≡ this_minute now k
  pub kept_day : r.0 ≡ false → this_day now r.1 ≡ this_day now k

pub try_key-Tries : (now : ℕ) (k : PoolKey) → Tries now k (try_key now k)
unfolding try_key try_concurrent_acquire concurrent_release reset_minute reset_day
try_key-Tries now k = ground (arith, try_rate_limit-Rates now (try_concurrent_acquire k).1)

pub length-remove_key : (ks : List ℕ) (k : ℕ) → length (remove_key ks k) ≤ length ks
unfolding remove_key
length-remove_key [] k = omega arith
length-remove_key (j ∷ ks) k = ground (arith, length-remove_key ks k)

In-mono : (i : ℕ) (xs ys : List ℕ) (j : ℕ) → (In j xs → In j ys) → In j (i ∷ xs) → In j (i ∷ ys)
In-mono i xs ys j f (inl e) = inl e
In-mono i xs ys j f (inr m) = inr (f m)

pub remove_key-In : (ks : List ℕ) (k j : ℕ) → In j (remove_key ks k) → In j ks
unfolding remove_key
remove_key-In [] k j m = m
remove_key-In (i ∷ ks) k j m =
    let rest = remove_key-In ks k j in
    elim (Bool-cases (i == k)) [
      | inl hit ↦ inr (rest (rw hit at m))
      | inr miss ↦ In-mono i (remove_key ks k) ks j rest (rw miss at m)
    ]

get_elem?-In : (ks : List ℕ) (i k : ℕ) → get_elem? ks i ≡ some k → In k ks
get_elem?-In [] i k e = cc
get_elem?-In (j ∷ ks) zero k e = inl (cc)
get_elem?-In (j ∷ ks) (suc i) k e = inr (get_elem?-In ks i k e)

-- A strategy changes its own state alone, and what it chooses is available.
pub record Selects (m : Manager) (available : List ℕ) (r : Option ℕ × Manager) : Type 0 where
  pub store : r.1.store ≡ m.store
  pub fresh : r.1.fresh ≡ m.fresh
  pub keys : r.1.keys ≡ m.keys
  pub active : r.1.active_stmt ≡ m.active_stmt
  pub member : (k : ℕ) → r.0 ≡ some k → In k available

round_robin-In :
    (r : RoundRobin) (ks : List ℕ) (k : ℕ) → (RoundRobin.select r ks).0 ≡ some k → In k ks
unfolding RoundRobin.select
round_robin-In r [] k e = cc
round_robin-In r (j ∷ ks) k e = get_elem?-In (j ∷ ks) _ k e

weighted-In :
    (store : ℕ → PoolKey) (w : Weights) (ks : List ℕ) (k : ℕ)
    → (WeightedRoundRobin.select store w ks).0 ≡ some k
    → In k ks
unfolding WeightedRoundRobin.select
weighted-In store w [] k e = cc
weighted-In store w (i ∷ ks) k e =
    elim (highest-Best store (accumulate store (i ∷ ks) (pos 0) w).1 (i ∷ ks) (negsuc 0) none) [
      | inl (none_found, low) ↦ absurd (cc (rw none_found at e))
      | inr (j, found, m, above, low) ↦
          subst (λ x. In x (i ∷ ks)) (some-injective j k (rw found at e)) m
    ]

select_by-Selects :
    (s : Strategy) (m : Manager) (available : List ℕ)
    → Selects m available (select_by s m available)
select_by-Selects round_robin m available = record {
  store = refl;
  fresh = refl;
  keys = refl;
  active = refl;
  member = round_robin-In m.round_robin available;
}
select_by-Selects weighted_round_robin m available = record {
  store = refl;
  fresh = refl;
  keys = refl;
  active = refl;
  member = weighted-In m.store m.weighted available;
}

pub select-Selects : (m : Manager) (available : List ℕ) → Selects m available (select m available)
unfolding select
select-Selects m available = select_by-Selects (current_strategy m) m available
