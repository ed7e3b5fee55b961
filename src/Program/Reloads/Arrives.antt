-- ===== src/Program/Reloads/Arrives.antt =====
-- How a change of the strategy reaches the pool through the loops of internal/config/reload.go and
-- internal/keypool/manager.go.
use go_key_pool_system.Prelude.{
  ℕ, ◌≡◌, ◌∙◌, refl, sym, ap, subst, String, true, false, Option, none, some, List, arith, str_eq,
  eq_iff, Bool-cases, inl, inr, Option-cases,
}
use go_key_pool_system.Db.Adapter.{ApiKey}
use go_key_pool_system.Db.Table.{Answer, ok, err}
use go_key_pool_system.Db.Settings.{Setting, SettingMap, get_system_config, update_system_config}
use go_key_pool_system.Db.Settings.RoundTrip.{get_system_config-update_system_config}
use go_key_pool_system.Config.Environment.{Environment}
use go_key_pool_system.Config.Validators.{valid_strategies}
use go_key_pool_system.Config.HotReload.{
  HotReloadConfig, set_strategy, update_strategy as update_config_strategy, update,
}
use go_key_pool_system.Keypool.Manager.{
  Manager, Strategy, round_robin, weighted_round_robin, strategy_named, current_strategy,
}
use go_key_pool_system.Keypool.Loading.{reload_keys, update_strategy}
use go_key_pool_system.Program.Reloads.{
  config_tick, pool_tick, Background, Tick, configures, reloads, selects, Ticks, here, next,
}

strategy_named-valid :
    (s : String) → valid_strategies s ≡ true → (k : Strategy) × (strategy_named s ≡ some k)
strategy_named-valid s h = elim (Option-cases (strategy_named s)) [
  | inl e ↦ absurd (ground (arith, h, e))
  | inr found ↦ found
]

-- updateStrategy of the manager, for a name that is known.
changed-active :
    {F : Type 0} (cfg : HotReloadConfig F) (m : Manager) (k : Strategy)
    → str_eq cfg.strategy m.active_stmt ≡ false
    → strategy_named cfg.strategy ≡ some k
    → (update_strategy cfg m).active_stmt ≡ cfg.strategy
unfolding update_strategy
changed-active cfg m round_robin other e = rw (other, e, update_strategy) refl
changed-active cfg m weighted_round_robin other e = rw (other, e, update_strategy) refl

update_strategy-active :
    {F : Type 0} (cfg : HotReloadConfig F) (m : Manager)
    → valid_strategies cfg.strategy ≡ true
    → (update_strategy cfg m).active_stmt ≡ cfg.strategy
unfolding update_strategy
update_strategy-active cfg m h = elim (Bool-cases (str_eq cfg.strategy m.active_stmt)) [
  | inl same ↦ rw (same, update_strategy) (sym ((eq_iff _ _).0 same))
  | inr other ↦ let (k, e) = strategy_named-valid cfg.strategy h in changed-active cfg m k other e
]

current_strategy-named :
    (m : Manager) (k : Strategy) → strategy_named m.active_stmt ≡ some k → current_strategy m ≡ k
current_strategy-named m k e = rw (e, current_strategy) refl

-- The configuration and the pool name strategies that are known.
pub record IsKnown {F : Type 0} (b : Background F) : Type 0 where
  pub configured : valid_strategies b.hot_cfg.strategy ≡ true
  pub active : valid_strategies b.pool.active_stmt ≡ true

module _ {F : Type 0} (env : Environment F) where
  set_strategy-taken :
      (field value : String)
      → valid_strategies value ≡ true
      → (set_strategy env field (some value)).1 ≡ value
  unfolding set_strategy
  set_strategy-taken field value h = elim (Bool-cases (str_eq value field)) [
    | inl same ↦ rw (h, same) (sym ((eq_iff _ _).0 same))
    | inr other ↦ rw (h, other) refl
  ]

  -- A known strategy that UpdateSystemConfig writes under its key is that of the configuration after a
  -- tick of its loop that can read the table, and, after a tick of the pool's loop on it, the
  -- strategy by which the pool selects, whatever the rows of the keys and the strategy before.
  pub strategy_change_arrives :
      (now : ℕ) (value : String) (settings : List Setting) (h : HotReloadConfig F)
      (rows : Option (List ApiKey)) (m : Manager)
      → valid_strategies value ≡ true
      → let written = (update_system_config true now "strategy" value settings).1 in
        let h' = (config_tick env (get_system_config true written) h).1 in
        let m' = pool_tick h' h' rows m in
        (h'.strategy ≡ value)
        × (m'.active_stmt ≡ value)
        × (strategy_named value ≡ some (current_strategy m'))
  unfolding config_tick update update_config_strategy pool_tick
  strategy_change_arrives now value settings h rows m valid =
      let written = (update_system_config true now "strategy" value settings).1 in
      let read = get_system_config-update_system_config true now "strategy" value settings in
      let h' = (config_tick env (get_system_config true written) h).1 in
      let taken : h'.strategy ≡ value =
        ap (λ answer. (config_tick env answer h).1.strategy) read
        ∙ set_strategy-taken h.strategy value valid in
      let arrives =
        update_strategy-active h' (reload_keys h' rows m).1
          (subst (λ v. valid_strategies v ≡ true) (sym taken) valid)
        ∙ taken in
      let (k, named) = strategy_named-valid value valid in
      (
        taken,
        arrives,
        named
            ∙ ap some (
                sym (
                  current_strategy-named (pool_tick h' h' rows m) k
                    (ap (λ v. strategy_named v) arrives ∙ named))),
      )

  set_strategy-valid :
      (s : String) (o : Option String)
      → valid_strategies s ≡ true
      → valid_strategies (set_strategy env s o).1 ≡ true
  unfolding set_strategy
  set_strategy-valid s none h = h
  set_strategy-valid s (some val) h = ground (arith, h)

  config_tick-valid :
      (answer : Answer SettingMap) (h : HotReloadConfig F)
      → valid_strategies h.strategy ≡ true
      → valid_strategies (config_tick env answer h).1.strategy ≡ true
  unfolding config_tick update update_config_strategy
  config_tick-valid (err e) h v = v
  config_tick-valid (ok db_config) h v = set_strategy-valid h.strategy (db_config "strategy") v

  reload_keys-active :
      (cfg : HotReloadConfig F) (rows : Option (List ApiKey)) (m : Manager)
      → (reload_keys cfg rows m).1.active_stmt ≡ m.active_stmt
  unfolding reload_keys
  reload_keys-active cfg none m = refl
  reload_keys-active cfg (some rows) m = refl

  Tick-IsKnown : {b c : Background F} → Tick env b c → IsKnown b → IsKnown c
  Tick-IsKnown {b} (configures answer) k = record {
    configured = config_tick-valid answer b.hot_cfg k.configured;
    active = k.active;
  }
  Tick-IsKnown {b} (reloads rows) k = record {
    configured = k.configured;
    active = rw (reload_keys-active b.hot_cfg rows b.pool) k.active;
  }
  Tick-IsKnown {b} selects k = record {
    configured = k.configured;
    active = rw (update_strategy-active b.hot_cfg b.pool k.configured) k.configured;
  }

  pub Ticks-IsKnown : {b c : Background F} → Ticks env b c → IsKnown b → IsKnown c
  Ticks-IsKnown here k = k
  Ticks-IsKnown (next r t) k = Tick-IsKnown t (Ticks-IsKnown r k)
