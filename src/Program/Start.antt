-- ===== src/Program/Start.antt =====
-- main of cmd/main.go, up to the start of the HTTP server, with NewSQLiteAdapter of
-- internal/db/sqlite.go. What lies outside is given: the environment, the driver, the migrations that
-- loadMigrations finds, and strconv.Itoa. A failure ends the process. The loggers, the HTTP client's
-- transport change nothing here. The two reload loops are those of Program.Reloads; each begins with
-- time.NewTicker, which panics on an interval that is not positive, and ends the process so.
pub mod Ready
use go_key_pool_system.Prelude.{
  ℕ, ◌≡◌, ◌⊎◌, inl, inr, String, Bool, true, false, not, ◌||◌, Option, none, some, List,
  if◌then◌else◌,
}
use go_key_pool_system.Prelude.Int.{ℤ, pos, pos_part, leb_ℤ}
use Prim.Native.String.{◌++◌ as str_append}
use go_key_pool_system.Db.Adapter.{ApiKey}
use go_key_pool_system.Db.Table.{ok, err}
use go_key_pool_system.Db.Keys.{get_all}
use go_key_pool_system.Db.Database.{Database}
use go_key_pool_system.Db.Migrations.{Driver, Schema, Migration, MigrationError, run_migrations}
use go_key_pool_system.Config.Environment.{Environment}
use go_key_pool_system.Config.Validators.{ConfigError}
use go_key_pool_system.Config.Static.{Config, load}
use go_key_pool_system.Config.HotReload.{HotReloadConfig, new_hot_reload_config}
use go_key_pool_system.Keypool.PoolKey.{PoolKey}
use go_key_pool_system.Keypool.Manager.{Manager}
use go_key_pool_system.Keypool.NewManager.{new_manager}
use go_key_pool_system.Queue.Bounded.{new_queue}
use go_key_pool_system.Worker.Pool.{Service, open_pool}

-- The connections of the adapter.
pub record Adapter : Type 0 where
  pub dsn : String
  pub max_open_conns : ℤ
  pub max_idle_conns : ℤ

pub data StartError : Type 0 where
  bad_config : ConfigError → StartError
  not_opened : StartError
  not_pinged : StartError
  not_migrated : MigrationError → StartError
  keys_not_loaded : StartError
  ticker_panics : StartError

pub record Outside (F : Type 0) : Type 0 where
  pub env : Environment F
  pub itoa : ℤ → String
  pub opens : String → Bool
  pub pings : String → Bool
  pub driver : Driver Database
  pub migrations : MigrationError ⊎ List Migration
  pub order_keys : (ApiKey → ApiKey → Bool) → List ApiKey → List ApiKey
  pub reads_keys : Bool
  pub unused : PoolKey

-- The program once it runs. `total_workers` is the gauge of the metrics.
pub record Running (F : Type 0) : Type 0 where
  pub cfg : Config F
  pub adapter : Adapter
  pub hot_cfg : HotReloadConfig F
  pub pool : Manager
  pub total_workers : ℤ
  pub service : Service

-- The calls of time.NewTicker, in the goroutines of the two reload loops.
unfoldable pub start_loops : {F : Type 0} → Running F → StartError ⊎ Running F
start_loops run =
    if leb_ℤ run.cfg.key_pool_reload_interval (pos 0)
      || leb_ℤ run.cfg.config_reload_interval (pos 0)
    then inl ticker_panics
    else inr run

-- The queue, the metrics, the workers and the loops, with what NewManager gives. NewPool would panic on a count
-- below 0, and a warm-up below 0 is no delay.
unfoldable pub launch_program :
    {F : Type 0} → Config F → Adapter → HotReloadConfig F → Option Manager → StartError ⊎ Running F
launch_program cfg adapter hot_cfg none = inl keys_not_loaded
launch_program cfg adapter hot_cfg (some pool) =
    let q = new_queue cfg.queue_max_size cfg.queue_high_priority_preempts_low in
    start_loops (record {
      cfg = cfg;
      adapter = adapter;
      hot_cfg = hot_cfg;
      pool = pool;
      total_workers = cfg.worker_count;
      service = open_pool (pos_part cfg.worker_count) (pos_part cfg.worker_warmup_period) q;
    })

module _ {F : Type 0} (o : Outside F) where
  -- file:<path>?_busy_timeout=<n>&_journal_mode=WAL
  abbrev pub dsn_of : String → ℤ → String
  dsn_of db_path busy_timeout_ms = str_append "file:" (
      str_append db_path
        (str_append "?_busy_timeout=" (str_append (o.itoa busy_timeout_ms) "&_journal_mode=WAL")))

  unfoldable pub new_sqlite_adapter : String → ℤ → ℤ → StartError ⊎ Adapter
  new_sqlite_adapter db_path max_open_conns busy_timeout_ms =
      let dsn = dsn_of db_path busy_timeout_ms in
      if not (o.opens dsn)
      then inl not_opened
      else if not (o.pings dsn)
      then inl not_pinged
      else inr (record { dsn = dsn; max_open_conns = max_open_conns; max_idle_conns = pos 1 })

  -- What GetAllAPIKeys gives.
  unfoldable pub key_rows : Database → Option (List ApiKey)
  key_rows db = elim (get_all o.order_keys o.reads_keys db.api_keys) [
    | ok keys ↦ some keys
    | err e ↦ none
  ]

  unfoldable pub after_migrations :
      Config F
      → Adapter
      → Option MigrationError × Schema Database
      → (StartError ⊎ Running F) × Schema Database
  after_migrations cfg adapter (some e, db) = (inl (not_migrated e), db)
  after_migrations cfg adapter (none, db) =
      let hot_cfg = new_hot_reload_config cfg in
      (launch_program cfg adapter hot_cfg (new_manager o.unused hot_cfg (key_rows db.rest)), db)

  unfoldable pub after_config :
      Config F → StartError ⊎ Adapter → Schema Database → (StartError ⊎ Running F) × Schema Database
  after_config cfg (inl e) db = (inl e, db)
  after_config cfg (inr adapter) db =
      after_migrations cfg adapter (run_migrations o.driver o.migrations db)

  unfoldable pub start_program : Schema Database → (StartError ⊎ Running F) × Schema Database
  start_program db = elim (load o.env) [
    | inl e ↦ (inl (bad_config e), db)
    | inr cfg ↦
        after_config cfg
          (new_sqlite_adapter cfg.db_path cfg.db_max_open_conns cfg.db_busy_timeout_ms) db
  ]
