-- ===== src/Keypool/NewManager.antt =====
-- NewManager of internal/keypool/manager.go: a manager whose two strategies are new, and which has
-- loaded its keys. What an address holds that is not given out yet does not matter: it is `unused`.
pub mod Loaded
use go_key_pool_system.Prelude.{Option, none, some, List, [], if◌then◌else◌}
use go_key_pool_system.Db.Adapter.{ApiKey}
use go_key_pool_system.Config.HotReload.{HotReloadConfig}
use go_key_pool_system.Keypool.PoolKey.{PoolKey}
use go_key_pool_system.Keypool.RoundRobin
use go_key_pool_system.Keypool.WeightedRoundRobin.{no_weights}
use go_key_pool_system.Keypool.Manager.{Manager}
use go_key_pool_system.Keypool.Loading.{reload_keys}

abbrev pub empty_manager : {F : Type 0} → PoolKey → HotReloadConfig F → Manager
empty_manager unused cfg = record {
  store = λ p. unused;
  fresh = 0;
  keys = [];
  round_robin = RoundRobin.new;
  weighted = no_weights;
  active_stmt = cfg.strategy;
}

-- `none` is the error of reloadKeys.
unfoldable pub new_manager :
    {F : Type 0} → PoolKey → HotReloadConfig F → Option (List ApiKey) → Option Manager
new_manager unused cfg rows =
    let (loaded, m) = reload_keys cfg rows (empty_manager unused cfg) in
    if loaded then some m else none
