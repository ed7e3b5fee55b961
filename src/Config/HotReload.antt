-- ===== src/Config/HotReload.antt =====
-- HotReloadConfig of internal/config/reload.go. The two float64 thresholds are of a type `F` that
-- stands for Go's floating-point numbers. A copy that Get returns is the record itself; an update
-- runs under the mutex. A change is given by what its text shows.
pub mod Update
use go_key_pool_system.Prelude.{
  ℕ, ◌+◌, ◌-◌, ◌/◌, String, Bool, true, false, ◌&&◌, ◌||◌, not, Option, none, some, List, [], ◌∷◌,
  ◌++◌, if◌then◌else◌, ◌==◌, str_eq,
}
use go_key_pool_system.Prelude.Int.{ℤ, pos, negsuc, leb_ℤ, eqb_ℤ}
use go_key_pool_system.Config.Environment.{Environment, second}
use go_key_pool_system.Config.Validators.{valid_strategies}
use go_key_pool_system.Config.Static.{Config}

pub record HotReloadConfig (F : Type 0) : Type 0 where
  pub worker_count : ℤ
  pub queue_max_size : ℤ
  pub strategy : String
  pub circuit_breaker_threshold : ℤ
  pub circuit_breaker_open_duration : ℤ
  pub retry_max_attempts : ℤ
  pub retry_base_delay_ms : ℤ
  pub retry_max_delay_ms : ℤ
  pub load_shed_level1_threshold : F
  pub load_shed_level2_threshold : F

-- int(d.Seconds()): whole seconds, cut off towards 0.
abbrev pub in_seconds : ℤ → ℤ
in_seconds (pos n) = pos (n / second)
in_seconds (negsuc n) = let s = (n + 1) / second in if s == 0 then pos 0 else negsuc (s - 1)

unfoldable pub new_hot_reload_config : {F : Type 0} → Config F → HotReloadConfig F
new_hot_reload_config static_cfg = record {
  worker_count = static_cfg.worker_count;
  queue_max_size = static_cfg.queue_max_size;
  strategy = static_cfg.key_pool_strategy;
  circuit_breaker_threshold = static_cfg.circuit_breaker_failure_threshold;
  circuit_breaker_open_duration = in_seconds static_cfg.circuit_breaker_open_duration;
  retry_max_attempts = static_cfg.retry_max_attempts;
  retry_base_delay_ms = static_cfg.retry_base_delay_ms;
  retry_max_delay_ms = static_cfg.retry_max_delay_ms;
  load_shed_level1_threshold = static_cfg.load_shed_level1_threshold;
  load_shed_level2_threshold = static_cfg.load_shed_level2_threshold;
}

pub data Change (F : Type 0) : Type 0 where
  int_changed : String → ℤ → ℤ → Change F
  float_changed : String → F → F → Change F
  strategy_changed : String → String → Change F

module _ {F : Type 0} (env : Environment F) where
  -- The field that a parsed value leaves, and the change.
  unfoldable pub set_int : String → ℤ → Option ℤ → List (Change F) × ℤ
  set_int key field none = ([], field)
  set_int key field (some new) =
      if leb_ℤ new (pos 0) || eqb_ℤ new field
      then ([], field)
      else (int_changed key field new ∷ [], new)

  unfoldable pub update_int : (String → Option String) → String → ℤ → List (Change F) × ℤ
  update_int db_config key field = elim (db_config key) [
    | none ↦ ([], field)
    | some val ↦ set_int key field (env.atoi val)
  ]

  unfoldable pub set_float : String → F → Option F → List (Change F) × F
  set_float key field none = ([], field)
  set_float key field (some new) =
      let floats = env.floats in
      if floats.below new floats.zero_point
        || floats.below floats.one_point new
        || floats.same new field
      then ([], field)
      else (float_changed key field new ∷ [], new)

  unfoldable pub update_float : (String → Option String) → String → F → List (Change F) × F
  update_float db_config key field = elim (db_config key) [
    | none ↦ ([], field)
    | some val ↦ set_float key field (env.parse_float val)
  ]

  unfoldable pub set_strategy : String → Option String → List (Change F) × String
  set_strategy field none = ([], field)
  set_strategy field (some val) =
      if not (valid_strategies val) || str_eq val field
      then ([], field)
      else (strategy_changed field val ∷ [], val)

  unfoldable pub update_strategy : (String → Option String) → String → List (Change F) × String
  update_strategy db_config field = set_strategy field (db_config "strategy")

  unfoldable pub update :
      (String → Option String) → HotReloadConfig F → List (Change F) × HotReloadConfig F
  update db h =
      let (c1, workers) = update_int db "worker_count" h.worker_count in
      let (c2, queue) = update_int db "queue_max_size" h.queue_max_size in
      let (c3, threshold) = update_int db "circuit_breaker_threshold" h.circuit_breaker_threshold in
      let (c4, duration) =
        update_int db "circuit_breaker_open_duration_seconds" h.circuit_breaker_open_duration in
      let (c5, attempts) = update_int db "retry_max_attempts" h.retry_max_attempts in
      let (c6, base) = update_int db "retry_base_delay_ms" h.retry_base_delay_ms in
      let (c7, max) = update_int db "retry_max_delay_ms" h.retry_max_delay_ms in
      let (c8, strategy) = update_strategy db h.strategy in
      let (c9, level1) = update_float db "load_shed_level1" h.load_shed_level1_threshold in
      let (c10, level2) = update_float db "load_shed_level2" h.load_shed_level2_threshold in
      (
        c1 ++ c2 ++ c3 ++ c4 ++ c5 ++ c6 ++ c7 ++ c8 ++ c9 ++ c10,
        record {
          worker_count = workers;
          queue_max_size = queue;
          strategy = strategy;
          circuit_breaker_threshold = threshold;
          circuit_breaker_open_duration = duration;
          retry_max_attempts = attempts;
          retry_base_delay_ms = base;
          retry_max_delay_ms = max;
          load_shed_level1_threshold = level1;
          load_shed_level2_threshold = level2;
        },
      )
