-- ===== src/Program/Start/Ready.antt =====
-- What main of cmd/main.go has when it starts the HTTP server, and how it fails before.
use go_key_pool_system.Prelude.{
  ◌<◌, ◌≡◌, ◌∙◌, refl, sym, ap, subst, ◌⊎◌, inl, inr, String, true, false, Option, none, some, List,
  [], ◌++◌, arith, Bool-cases, Option-cases, sum-cases,
}
use go_key_pool_system.Prelude.Int.{ℤ, pos, pos_part, leb_ℤ, ◌≤ℤ◌}
use go_key_pool_system.Db.Adapter.{ApiKey}
use go_key_pool_system.Db.Database.{Database}
use go_key_pool_system.Db.Migrations.{Schema, Migration, MigrationError, run_migrations}
use go_key_pool_system.Db.Migrations.Records.{pending, records}
use go_key_pool_system.Db.Migrations.Twice.{scripts, run_migrations_twice}
use go_key_pool_system.Config.Validators.{ConfigError}
use go_key_pool_system.Config.Static.{Config, load}
use go_key_pool_system.Config.Static.Valid.{IsValid, load-IsValid}
use go_key_pool_system.Config.HotReload.{new_hot_reload_config}
use go_key_pool_system.Keypool.Manager.{Manager}
use go_key_pool_system.Keypool.NewManager.{new_manager}
use go_key_pool_system.Queue.Bounded.{new_queue}
use go_key_pool_system.Worker.Pool.{open_pool}
use go_key_pool_system.Worker.Pool.Conserved.{IsSound, open_pool-Sound}
use go_key_pool_system.Program.Reloads.Arrives.{IsKnown}
use go_key_pool_system.Program.Start.{
  Adapter, StartError, bad_config, not_opened, not_pinged, not_migrated, keys_not_loaded, Outside,
  Running, new_sqlite_adapter, dsn_of, key_rows, ticker_panics, start_loops, launch_program,
  after_migrations, after_config, start_program,
}
use go_key_pool_system.Keypool.NewManager.Loaded.{Loaded, new_manager-Loaded, new_manager-none}

pos_part_positive : (n : ℤ) → pos 1 ≤ℤ n → pos (pos_part n) ≡ n
pos_part_positive n h = ground (arith, h)

positive_part : (n : ℤ) → pos 1 ≤ℤ n → 0 < pos_part n
positive_part n h = omega (arith, h)

module _ {F : Type 0} (o : Outside F) where
  abbrev migrate : Schema Database → Option MigrationError × Schema Database
  migrate db = run_migrations o.driver o.migrations db

  -- The adapter answers, at the path of the configuration and with its connections.
  pub record IsConnected (cfg : Config F) (a : Adapter) : Type 0 where
    pub dsn : a.dsn ≡ dsn_of o cfg.db_path cfg.db_busy_timeout_ms
    pub opens : o.opens a.dsn ≡ true
    pub pings : o.pings a.dsn ≡ true
    pub conns : a.max_open_conns ≡ cfg.db_max_open_conns

  -- The program that runs, over the database `after` that was `db` before.
  pub record IsReady (db after : Schema Database) (run : Running F) : Type 0 where
    pub loaded : load o.env ≡ inr run.cfg
    pub valid : IsValid run.cfg
    pub connected : IsConnected run.cfg run.adapter
    pub one_connection : run.adapter.max_open_conns ≡ pos 1
    pub found : List Migration
    pub migrations : o.migrations ≡ inr found
    pub applied : after.applied ≡ db.applied ++ records (pending db.applied found)
    pub ran : scripts o.driver (pending db.applied found) db.rest ≡ some after.rest
    pub rows : List ApiKey
    pub read : key_rows o after.rest ≡ some rows
    pub pool : Loaded run.hot_cfg rows run.pool
    pub known : IsKnown (record { hot_cfg = run.hot_cfg; pool = run.pool })
    pub workers : pos run.service.to_start ≡ run.cfg.worker_count
    pub worker : 0 < run.service.to_start
    pub sound : IsSound run.service
    pub empty : run.service.queue.pq ≡ []
    pub room : run.service.queue.max_size ≡ run.cfg.queue_max_size
    pub preempts : run.service.queue.preempt ≡ run.cfg.queue_high_priority_preempts_low
    pub pool_ticks : pos 1 ≤ℤ run.cfg.key_pool_reload_interval
    pub config_ticks : pos 1 ≤ℤ run.cfg.config_reload_interval

  -- Why a database cannot be opened.
  pub data FailsOpen (dsn : String) (e : StartError) : Type 0 where
    closed : o.opens dsn ≡ false → e ≡ not_opened → FailsOpen dsn e
    silent : o.opens dsn ≡ true → o.pings dsn ≡ false → e ≡ not_pinged → FailsOpen dsn e

  -- The ways that the start ends.
  pub data Started (db : Schema Database) (r : (StartError ⊎ Running F) × Schema Database)
      : Type 0 where
    fails_config :
        (e : ConfigError) → load o.env ≡ inl e → r ≡ (inl (bad_config e), db) → Started db r
    fails_open :
        (cfg : Config F) (e : StartError)
        → load o.env ≡ inr cfg
        → FailsOpen (dsn_of o cfg.db_path cfg.db_busy_timeout_ms) e
        → r ≡ (inl e, db)
        → Started db r
    fails_migration :
        (e : MigrationError)
        → (migrate db).0 ≡ some e
        → r ≡ (inl (not_migrated e), (migrate db).1)
        → Started db r
    fails_keys :
        (migrate db).0 ≡ none
        → key_rows o (migrate db).1.rest ≡ none
        → r ≡ (inl keys_not_loaded, (migrate db).1)
        → Started db r
    panics :
        (cfg : Config F)
        → load o.env ≡ inr cfg
        → (cfg.key_pool_reload_interval ≤ℤ pos 0) ⊎ (cfg.config_reload_interval ≤ℤ pos 0)
        → (migrate db).0 ≡ none
        → r ≡ (inl ticker_panics, (migrate db).1)
        → Started db r
    runs :
        (run : Running F)
        → (migrate db).0 ≡ none
        → r ≡ (inr run, (migrate db).1)
        → IsReady db (migrate db).1 run
        → Started db r

  adapter-cases :
      (cfg : Config F)
      → let opened =
          new_sqlite_adapter o cfg.db_path cfg.db_max_open_conns cfg.db_busy_timeout_ms in
        ((e : StartError) × (opened ≡ inl e)
          × FailsOpen (dsn_of o cfg.db_path cfg.db_busy_timeout_ms) e)
        ⊎ ((a : Adapter) × (opened ≡ inr a) × IsConnected cfg a)
  unfolding new_sqlite_adapter
  adapter-cases cfg =
      let dsn = dsn_of o cfg.db_path cfg.db_busy_timeout_ms in
      elim (Bool-cases (o.opens dsn)) [
        | inr shut ↦ inl (not_opened, rw shut refl, closed shut refl)
        | inl opens ↦ elim (Bool-cases (o.pings dsn)) [
          | inr quiet ↦ inl (not_pinged, rw (opens, quiet) refl, silent opens quiet refl)
          | inl pings ↦ inr (
            record { dsn = dsn; max_open_conns = cfg.db_max_open_conns; max_idle_conns = pos 1 },
            rw (opens, pings) refl,
            record { dsn = refl; opens = opens; pings = pings; conns = refl },
          )
        ]
      ]

  -- A run of the migrations without an error had found some.
  migrations_found :
      (found : MigrationError ⊎ List Migration) (db : Schema Database)
      → (run_migrations o.driver found db).0 ≡ none
      → (ms : List Migration) × (found ≡ inr ms)
  unfolding run_migrations
  migrations_found (inl e) db h = absurd (ground (arith, h))
  migrations_found (inr ms) db h = (ms, refl)

  recorded :
      (ms : List Migration) (db : Schema Database)
      → o.migrations ≡ inr ms
      → (migrate db).0 ≡ none
      → ((migrate db).1.applied ≡ db.applied ++ records (pending db.applied ms))
        × (scripts o.driver (pending db.applied ms) db.rest ≡ some (migrate db).1.rest)
  recorded ms db found h =
      let same = ap (λ ms. run_migrations o.driver ms db) found in
      let (applied, ran, again) =
        run_migrations_twice o.driver (record o.driver { creates = true; reads = true }) ms db
          (ap (λ r. r.0) (sym same) ∙ h) refl refl in
      (ap (λ r. r.1.applied) same ∙ applied, ran ∙ ap (λ r. some r.1.rest) (sym same))

  -- The program over the pool `m`.
  abbrev running : Config F → Adapter → Manager → Running F
  running cfg adapter m =
      let q = new_queue cfg.queue_max_size cfg.queue_high_priority_preempts_low in
      record {
        cfg = cfg;
        adapter = adapter;
        hot_cfg = new_hot_reload_config cfg;
        pool = m;
        total_workers = cfg.worker_count;
        service = open_pool (pos_part cfg.worker_count) (pos_part cfg.worker_warmup_period) q;
      }

  running-IsReady :
      (db : Schema Database) (cfg : Config F) (adapter : Adapter) (rows : List ApiKey) (m : Manager)
      → load o.env ≡ inr cfg
      → (migrate db).0 ≡ none
      → key_rows o (migrate db).1.rest ≡ some rows
      → Loaded (new_hot_reload_config cfg) rows m
      → IsConnected cfg adapter
      → pos 1 ≤ℤ cfg.key_pool_reload_interval
      → pos 1 ≤ℤ cfg.config_reload_interval
      → IsReady db (migrate db).1 (running cfg adapter m)
  unfolding open_pool new_queue new_hot_reload_config
  running-IsReady db cfg adapter rows m h done read l c pt ct =
      let (same, valid) = load-IsValid o.env cfg h in
      let (ms, found) = migrations_found o.migrations db done in
      let (applied, ran) = recorded ms db found done in
      record {
        loaded = h;
        valid = valid;
        connected = c;
        one_connection = c.conns ∙ valid.conns;
        found = ms;
        migrations = found;
        applied = applied;
        ran = ran;
        rows = rows;
        read = read;
        pool = l;
        known = record { configured = valid.strategy; active = rw l.strategy valid.strategy };
        workers = pos_part_positive cfg.worker_count valid.workers;
        worker = positive_part cfg.worker_count valid.workers;
        sound = ([], open_pool-Sound _ _ cfg.queue_max_size cfg.queue_high_priority_preempts_low);
        empty = refl;
        room = refl;
        preempts = refl;
        pool_ticks = pt;
        config_ticks = ct;
      }

  loops-cases :
      (run : Running F)
      → (((run.cfg.key_pool_reload_interval ≤ℤ pos 0) ⊎ (run.cfg.config_reload_interval ≤ℤ pos 0))
          × (start_loops run ≡ inl ticker_panics))
        ⊎ ((pos 1 ≤ℤ run.cfg.key_pool_reload_interval)
            × (pos 1 ≤ℤ run.cfg.config_reload_interval)
            × (start_loops run ≡ inr run))
  unfolding start_loops
  loops-cases run = elim (Bool-cases (leb_ℤ run.cfg.key_pool_reload_interval (pos 0))) [
    | inl low ↦ inl (inl (ground (arith, low)), rw low refl)
    | inr high ↦ elim (Bool-cases (leb_ℤ run.cfg.config_reload_interval (pos 0))) [
      | inl low ↦ inl (inr (ground (arith, low)), rw (high, low) refl)
      | inr other ↦ inr (ground (arith, high), ground (arith, other), rw (high, other) refl)
    ]
  ]

  migrated-Started :
      (db : Schema Database) (cfg : Config F) (adapter : Adapter)
      (r : Option MigrationError × Schema Database)
      → load o.env ≡ inr cfg
      → IsConnected cfg adapter
      → r ≡ migrate db
      → Started db (after_migrations o cfg adapter r)
  unfolding after_migrations launch_program
  migrated-Started db cfg adapter (some e, after) h c same =
      fails_migration e (sym (ap (λ r. r.0) same))
        (λ i. (inl (not_migrated e), (ap (λ r. r.1) same) i))
  migrated-Started db cfg adapter (none, after) h c same =
      let hot = new_hot_reload_config cfg in
      let done : (migrate db).0 ≡ none = sym (ap (λ r. r.0) same) in
      let launched = λ (rows : Option (List ApiKey)).
        launch_program cfg adapter hot (new_manager o.unused hot rows) in
      elim (Option-cases (key_rows o after.rest)) [
        | inl absent ↦
            let failed =
              ap launched absent
              ∙ ap (launch_program cfg adapter hot) (new_manager-none o.unused hot) in
            fails_keys done (subst (λ s. key_rows o s.rest ≡ none) (ap (λ r. r.1) same) absent)
              (λ i. (failed i, (ap (λ r. r.1) same) i))
        | inr (rows, read) ↦
            let (m, made, l) = new_manager-Loaded o.unused hot rows in
            let runs_it = ap launched read ∙ ap (launch_program cfg adapter hot) made in
            elim (loops-cases (running cfg adapter m)) [
              | inl (which, stopped) ↦
                  let stops_it = runs_it ∙ stopped in
                  panics cfg h which done (λ i. (stops_it i, (ap (λ r. r.1) same) i))
              | inr (pt, ct, started) ↦
                  let goes = runs_it ∙ started in
                  runs (running cfg adapter m) done (λ i. (goes i, (ap (λ r. r.1) same) i))
                    (running-IsReady db cfg adapter rows m h done
                      (subst (λ s. key_rows o s.rest ≡ some rows) (ap (λ r. r.1) same) read) l c pt
                      ct)
            ]
      ]

  -- The start fails on the configuration, or on a database that does not open or does not answer, and
  -- has changed nothing; or on the migrations or the reading of the keys, over the database that the
  -- migrations leave; or on an interval of a reload loop that is not positive, which no check of the
  -- configuration excludes and time.NewTicker panics on. Or the program runs: its configuration is the one of the environment and passes
  -- every check, the database has answered and has one connection, every migration that was found has
  -- run and is recorded, the pool has one key with no slot taken for
  -- each row of the table and selects by a known strategy, and a pool of as many workers as
  -- configured, of which there is one at least, is to be launched over an empty queue with the bound and
  -- the preemption of the configuration.
  pub start_program-Started : (db : Schema Database) → Started db (start_program o db)
  unfolding start_program after_config
  start_program-Started db = elim (sum-cases (load o.env)) [
    | inl (e, h) ↦ fails_config e h (rw (h, start_program) refl)
    | inr (cfg, h) ↦
        rw (h, start_program)
          (elim (adapter-cases cfg) [
            | inl (e, failed, which) ↦ fails_open cfg e h which (rw (failed, after_config) refl)
            | inr (adapter, opened, c) ↦
                rw (opened, after_config) (migrated-Started db cfg adapter (migrate db) h c refl)
          ])
  ]
