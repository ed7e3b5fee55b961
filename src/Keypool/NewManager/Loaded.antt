-- ===== src/Keypool/NewManager/Loaded.antt =====
-- The pool that NewManager of internal/keypool/manager.go leaves.
use go_key_pool_system.Prelude.{ℕ, ◌<◌, ◌≡◌, refl, none, some, List, map, arith}
use go_key_pool_system.Db.Adapter.{ApiKey}
use go_key_pool_system.Config.HotReload.{HotReloadConfig}
use go_key_pool_system.Keypool.PoolKey.{PoolKey}
use go_key_pool_system.Keypool.Manager.{Manager}
use go_key_pool_system.Keypool.Loading.{reload_keys}
use go_key_pool_system.Keypool.Manager.Reload.{IsAllocated, reload_keys-named, reload_keys-Extends}
use go_key_pool_system.Keypool.NewManager.{empty_manager, new_manager}

-- The pool that NewManager gives for the rows.
pub record Loaded {F : Type 0} (cfg : HotReloadConfig F) (rows : List ApiKey) (m : Manager)
    : Type 0 where
  pub keys : map (λ k. (m.store k).id) m.keys ≡ map (λ d. d.id) rows
  pub allocated : IsAllocated m
  pub free : (j : ℕ) → j < m.fresh → (m.store j).current_concurrent ≡ 0
  pub strategy : m.active_stmt ≡ cfg.strategy

pub new_manager-Loaded :
    {F : Type 0} (unused : PoolKey) (cfg : HotReloadConfig F) (rows : List ApiKey)
    → (m : Manager) × (new_manager unused cfg (some rows) ≡ some m) × Loaded cfg rows m
unfolding new_manager reload_keys
new_manager-Loaded unused cfg rows =
    let start = empty_manager unused cfg in
    let e = reload_keys-Extends cfg (some rows) start tt in
    (
      (reload_keys cfg (some rows) start).1,
      refl,
      record {
        keys = reload_keys-named cfg rows start tt;
        allocated = e.allocated;
        free = λ j l. e.clean j (omega arith) l;
        strategy = refl;
      },
    )

pub new_manager-none :
    {F : Type 0} (unused : PoolKey) (cfg : HotReloadConfig F) → new_manager unused cfg none ≡ none
unfolding new_manager reload_keys
new_manager-none unused cfg = refl
