-- ===== src/Program/Reloads.antt =====
-- The two loops that main starts beside the workers: StartReloadLoop of internal/config/reload.go and
-- of internal/keypool/manager.go. A tick of the first reads the settings and updates the
-- configuration; a tick of the second reloads the keys and then looks at the strategy, and reads the
-- configuration in both.
pub mod Arrives
use go_key_pool_system.Prelude.{ℕ, ◌≡◌, String, Bool, true, Option, none, some, List, []}
use go_key_pool_system.Db.Adapter.{ApiKey}
use go_key_pool_system.Db.Table.{Answer, ok, err}
use go_key_pool_system.Db.Settings.{SettingMap}
use go_key_pool_system.Config.Environment.{Environment}
use go_key_pool_system.Config.HotReload.{HotReloadConfig, Change, update}
use go_key_pool_system.Keypool.Manager.{Manager}
use go_key_pool_system.Keypool.Loading.{reload_keys, update_strategy}

module _ {F : Type 0} (env : Environment F) where
  -- An error of GetSystemConfig is only logged. The changes are what is logged otherwise.
  unfoldable pub config_tick :
      Answer SettingMap → HotReloadConfig F → List (Change F) × HotReloadConfig F
  config_tick (err e) h = ([], h)
  config_tick (ok db_config) h = update env db_config h

-- An error of reloadKeys is only logged. The configuration may change between the two calls.
unfoldable pub pool_tick :
    {F : Type 0} → HotReloadConfig F → HotReloadConfig F → Option (List ApiKey) → Manager → Manager
pool_tick cfg later rows m = update_strategy later (reload_keys cfg rows m).1

-- The configuration and the pool beside the loops, a step being a tick of one, or a part of it.
pub record Background (F : Type 0) : Type 0 where
  pub hot_cfg : HotReloadConfig F
  pub pool : Manager

module _ {F : Type 0} (env : Environment F) where
  pub data Tick (b : Background F) : Background F → Type 0 where
    configures :
        (answer : Answer SettingMap)
        → Tick b (record b { hot_cfg = (config_tick env answer b.hot_cfg).1 })
    reloads :
        (rows : Option (List ApiKey))
        → Tick b (record b { pool = (reload_keys b.hot_cfg rows b.pool).1 })
    selects : Tick b (record b { pool = update_strategy b.hot_cfg b.pool })

  pub data Ticks (b : Background F) : Background F → Type 0 where
    here : Ticks b b
    next : {c d : Background F} → Ticks b c → Tick c d → Ticks b d
