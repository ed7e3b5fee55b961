-- ===== src/Keypool/Loading.antt =====
-- reloadKeys and updateStrategy of internal/keypool/manager.go.
use go_key_pool_system.Prelude.{
  ℕ, ◌+◌, ◌-◌, ◌*◌, String, Bool, true, false, Option, none, some, List, [], ◌∷◌, if◌then◌else◌,
  str_eq,
}
use go_key_pool_system.Prelude.Int.{ℤ, pos, negsuc}
use go_key_pool_system.Prelude.Store.{update}
use go_key_pool_system.Db.Adapter.{ApiKey}
use go_key_pool_system.Config.HotReload.{HotReloadConfig}
use go_key_pool_system.Keypool.CircuitBreaker
use go_key_pool_system.Keypool.CircuitBreaker.{CircuitBreaker}
use go_key_pool_system.Keypool.PoolKey.{PoolKey}
use go_key_pool_system.Keypool.RoundRobin
use go_key_pool_system.Keypool.RoundRobin.{RoundRobin}
use go_key_pool_system.Keypool.WeightedRoundRobin
use go_key_pool_system.Keypool.WeightedRoundRobin.{Weights}
use go_key_pool_system.Keypool.Manager.{Manager, round_robin, weighted_round_robin, strategy_named}

-- existing[id]: a later key of the same ID hides an earlier one.
unfoldable pub existing : (ℕ → PoolKey) → String → List ℕ → Option ℕ
existing store id [] = none
existing store id (k ∷ ks) = elim (existing store id ks) [
  | some j ↦ some j
  | none ↦ if str_eq (store k).id id then some k else none
]

-- The fields that come from the database.
abbrev pub refreshed : PoolKey → ApiKey → PoolKey
refreshed old db_key = record old {
  name = db_key.name;
  key_encrypted = db_key.key_encrypted;
  weight = db_key.weight;
  rate_limit_per_minute = db_key.rate_limit_per_minute;
  rate_limit_per_day = db_key.rate_limit_per_day;
  concurrent_limit = db_key.concurrent_limit;
}

-- time.Duration(n) * time.Second
abbrev pub seconds : ℤ → ℤ
seconds (pos n) = pos (n * 1000000000)
seconds (negsuc n) = negsuc ((n + 1) * 1000000000 - 1)

module _ {F : Type 0} (cfg : HotReloadConfig F) where
  -- A key that the pool has not seen. The duration is in nanoseconds.
  abbrev pub fresh_key : ApiKey → PoolKey
  fresh_key db_key = record {
    id = db_key.id;
    name = db_key.name;
    key_encrypted = db_key.key_encrypted;
    weight = db_key.weight;
    rate_limit_per_minute = db_key.rate_limit_per_minute;
    rate_limit_per_day = db_key.rate_limit_per_day;
    concurrent_limit = db_key.concurrent_limit;
    current_concurrent = 0;
    minute_counter = 0;
    day_counter = 0;
    minute_reset_at = 0;
    day_reset_at = 0;
    circuit_breaker = some (
        CircuitBreaker.new cfg.circuit_breaker_threshold
          (seconds cfg.circuit_breaker_open_duration));
  }

  -- One row: the key that stands for it, and the store with it.
  unfoldable pub load : ApiKey → Option ℕ → (ℕ → PoolKey) → ℕ → ℕ × (ℕ → PoolKey) × ℕ
  load db_key (some k) store fresh = (k, update store k (refreshed (store k) db_key), fresh)
  load db_key none store fresh = (fresh, update store fresh (fresh_key db_key), fresh + 1)

  -- The loop of reloadKeys over the rows, with the map of the existing keys as `find`.
  unfoldable pub reload_loop :
      (String → Option ℕ) → List ApiKey → (ℕ → PoolKey) → ℕ → List ℕ × (ℕ → PoolKey) × ℕ
  reload_loop find [] store fresh = ([], store, fresh)
  reload_loop find (db_key ∷ db_keys) store fresh =
      let (k, store', fresh') = load db_key (find db_key.id) store fresh in
      let (ks, store'', fresh'') = reload_loop find db_keys store' fresh' in
      (k ∷ ks, store'', fresh'')

  -- `none` is an error of GetAllAPIKeys: nothing changes.
  unfoldable pub reload_keys : Option (List ApiKey) → Manager → Bool × Manager
  reload_keys none m = (false, m)
  reload_keys (some db_keys) m =
      let (keys, store, fresh) =
        reload_loop (λ id. existing m.store id m.keys) db_keys m.store m.fresh in
      (true, record m { keys = keys; store = store; fresh = fresh })

  unfoldable pub update_strategy : Manager → Manager
  update_strategy m =
      if str_eq cfg.strategy m.active_stmt then m else elim (strategy_named cfg.strategy) [
        | none ↦ m
        | some round_robin ↦ record m {
          active_stmt = cfg.strategy;
          round_robin = RoundRobin.reset m.round_robin;
        }
        | some weighted_round_robin ↦ record m {
          active_stmt = cfg.strategy;
          weighted = WeightedRoundRobin.reset m.weighted;
        }
      ]
