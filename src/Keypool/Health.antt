-- ===== src/Keypool/Health.antt =====
-- GetHealthStatus and PoolSize of internal/keypool/manager.go.
use go_key_pool_system.Prelude.{ℕ, String, none, some, List, map, length}
use go_key_pool_system.Prelude.Int.{ℤ}
use go_key_pool_system.Db.Adapter.{CircuitState, closed}
use go_key_pool_system.Keypool.PoolKey.{PoolKey}
use go_key_pool_system.Keypool.Manager.{Manager}

pub record KeyHealth : Type 0 where
  pub id : String
  pub name : String
  pub circuit_state : CircuitState
  pub failure_count : ℕ
  pub current_concurrent : ℕ
  pub concurrent_limit : ℤ
  pub weight : ℤ

unfoldable pub health_of : PoolKey → KeyHealth
health_of key = record {
  id = key.id;
  name = key.name;
  circuit_state = elim key.circuit_breaker [ none ↦ closed | some cb ↦ cb.state ];
  failure_count = elim key.circuit_breaker [ none ↦ 0 | some cb ↦ cb.failure_count ];
  current_concurrent = key.current_concurrent;
  concurrent_limit = key.concurrent_limit;
  weight = key.weight;
}

unfoldable pub get_health_status : Manager → List KeyHealth
get_health_status m = map (λ k. health_of (m.store k)) m.keys

unfoldable pub pool_size : Manager → ℕ
pool_size m = length m.keys
