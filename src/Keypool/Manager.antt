-- ===== src/Keypool/Manager.antt =====
-- internal/keypool/manager.go. A `*PoolKey` is an address into `store`; `fresh` is the first address
-- not yet given out. A method is a function to its result and the manager after it, in a call that no
-- other comes between; GetKey holds the read lock only, and Leases has its parts as steps of their
-- own. A method that writes to the database also returns the writes, in order. All readings of the
-- clock within one call of GetKey are the one `now`. The map `strategies` never changes after
-- NewManager, so its two entries are fields.
pub mod Keys
pub mod GetKey
pub mod Attempts
pub mod Marking
pub mod Reload
pub mod Holding
pub mod Parts
pub mod Leases
use go_key_pool_system.Prelude.{
  ℕ, zero, suc, ◌+◌, ◌-◌, ◌*◌, ◌≤◌, ◌<◌, ◌≡◌, String, Bool, true, false, not, Option, none, some,
  List, [], ◌∷◌, ltb, ◌==◌, if◌then◌else◌, str_eq, length,
}
use go_key_pool_system.Prelude.Int.{ℤ, pos, negsuc}
use go_key_pool_system.Prelude.Store.{update}
use go_key_pool_system.Db.Adapter.{
  CircuitState, closed, open_state, half_open, EventType, circuit_opened, circuit_closed,
  key_failed, ApiKey, Write, create_key_event, update_api_key_last_used, update_api_key_health,
}
use go_key_pool_system.Config.HotReload.{HotReloadConfig}
use go_key_pool_system.Keypool.CircuitBreaker
use go_key_pool_system.Keypool.CircuitBreaker.{CircuitBreaker}
use go_key_pool_system.Keypool.PoolKey.{
  PoolKey, try_concurrent_acquire, try_rate_limit, concurrent_release,
}
use go_key_pool_system.Keypool.RoundRobin
use go_key_pool_system.Keypool.RoundRobin.{RoundRobin}
use go_key_pool_system.Keypool.WeightedRoundRobin
use go_key_pool_system.Keypool.WeightedRoundRobin.{Weights}

pub record Manager : Type 0 where
  pub store : ℕ → PoolKey
  pub fresh : ℕ
  pub keys : List ℕ
  pub round_robin : RoundRobin
  pub weighted : Weights
  pub active_stmt : String

pub data Strategy : Type 0 where
  round_robin weighted_round_robin : Strategy

-- m.strategies[name]
abbrev pub strategy_named : String → Option Strategy
strategy_named s =
    if str_eq s RoundRobin.name
    then some round_robin
    else if str_eq s WeightedRoundRobin.name
    then some weighted_round_robin
    else none

-- The current strategy, or round robin where the name is unknown.
abbrev pub current_strategy : Manager → Strategy
current_strategy m = elim (strategy_named m.active_stmt) [ none ↦ round_robin | some s ↦ s ]

abbrev select_by : Strategy → Manager → List ℕ → Option ℕ × Manager
select_by round_robin m available =
    let (k, r) = RoundRobin.select m.round_robin available in (k, record m { round_robin = r })
select_by weighted_round_robin m available =
    let (k, w) = WeightedRoundRobin.select m.store m.weighted available in
    (k, record m { weighted = w })

-- strategy.Select(available)
unfoldable pub select : Manager → List ℕ → Option ℕ × Manager
select m available = select_by (current_strategy m) m available

-- key.circuitBreaker != nil && !key.circuitBreaker.AllowRequest(), negated.
unfoldable pub allows : ℕ → PoolKey → Bool × PoolKey
allows now k = elim k.circuit_breaker [
  | none ↦ (true, k)
  | some cb ↦
      let (ok, cb') = CircuitBreaker.allow_request now cb in
      (ok, record k { circuit_breaker = some cb' })
]

-- The first loop of GetKey, which moves the breakers of the keys that it looks at.
unfoldable pub collect : ℕ → (ℕ → PoolKey) → List ℕ → List ℕ × (ℕ → PoolKey)
collect now store [] = ([], store)
collect now store (k ∷ ks) =
    let (ok, key) = allows now (store k) in
    let (rest, store') = collect now (update store k key) ks in
    (if ok then k ∷ rest else rest, store')

unfoldable pub remove_key : List ℕ → ℕ → List ℕ
remove_key [] target = []
remove_key (k ∷ ks) target =
    let rest = remove_key ks target in if k == target then rest else k ∷ rest

-- Both checks on the selected key; a slot taken for nothing is given back.
unfoldable pub try_key : ℕ → PoolKey → Bool × PoolKey
try_key now k =
    let (acquired, taken) = try_concurrent_acquire k in
    let (within, counted) = try_rate_limit now taken in
    if not acquired
    then (false, taken)
    else if not within
    then (false, concurrent_release counted)
    else (true, counted)

-- The selected key of one round of the second loop, and whether it could be acquired.
unfoldable pub try_select : ℕ → List ℕ → Manager → Option ℕ × Bool × Manager
try_select now available m =
    let (selected, m') = select m available in
    elim selected [
      | none ↦ (none, false, m')
      | some k ↦
          let (done, key) = try_key now (m'.store k) in
          (some k, done, record m' { store = update m'.store k key })
    ]

-- The second loop of GetKey, on fuel.
unfoldable pub try_keys : ℕ → ℕ → ℕ → List ℕ → Manager → Option ℕ × Manager
try_keys now zero attempts available m = (none, m)
try_keys now (suc fuel) attempts available m =
    let (selected, done, m') = try_select now available m in
    let round : Option ℕ × Manager = elim selected [
      | none ↦ (none, m')
      | some k ↦
          let rest = remove_key available k in
          let later = try_keys now fuel (attempts + 1) rest m' in
          if done then (some k, m') else if length rest == 0 then (none, m') else later
    ] in
    if ltb attempts (length available) then round else (none, m)

unfoldable pub get_key : ℕ → Manager → Option ℕ × Manager
get_key now m =
    let (available, store) = collect now m.store m.keys in
    let m' = record m { store = store } in
    if length available == 0 then (none, m') else try_keys now (length available) 0 available m'

unfoldable pub release_key : ℕ → Manager → Manager
release_key k m = record m { store = update m.store k (concurrent_release (m.store k)) }
