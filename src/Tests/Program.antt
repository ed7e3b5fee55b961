-- ===== src/Tests/Program.antt =====
-- Runs of cmd/main.go and its loops at concrete inputs: an empty database, and no migration.
use go_key_pool_system.Prelude.{◌≡◌, refl, String, true, none, some, [], inr, ℕ}
use go_key_pool_system.Prelude.Int.{pos}
use go_key_pool_system.Db.Database.{Database}
use go_key_pool_system.Db.Migrations.{Schema}
use go_key_pool_system.Db.Settings.{get_system_config, update_system_config}
use go_key_pool_system.Keypool.Manager.{strategy_named, current_strategy}
use go_key_pool_system.Program.Reloads.{config_tick, pool_tick}
use go_key_pool_system.Program.Reloads.Arrives.{strategy_change_arrives}
use go_key_pool_system.Program.Start.{Outside, start_program}
use go_key_pool_system.Program.Start.Ready.{Started, start_program-Started}
use go_key_pool_system.Tests.Config.{env}
use go_key_pool_system.Tests.Keypool.{hot, pool, key_with}

abbrev weighted : String
weighted = "weighted_round_robin"

strategy_change_arrives_example :
    let written = (update_system_config true 5 "strategy" weighted []).1 in
    let h' = (config_tick env (get_system_config true written) hot).1 in
    let m' = pool_tick h' h' none pool in
    (h'.strategy ≡ weighted)
    × (m'.active_stmt ≡ weighted)
    × (strategy_named weighted ≡ some (current_strategy m'))
strategy_change_arrives_example = strategy_change_arrives env 5 weighted [] hot none pool refl

abbrev empty_tables : Schema Database
empty_tables = record {
  applied = [];
  rest = record { api_keys = []; requests = []; key_events = []; system_config = [] };
}

abbrev outside : Outside ℕ
outside = record {
  env = env;
  itoa = λ n. "5000";
  opens = λ dsn. true;
  pings = λ dsn. true;
  driver = record {
    creates = true;
    reads = true;
    begins = λ m. true;
    commits = λ m. true;
    executes = λ sql db. some db;
  };
  migrations = inr [];
  order_keys = λ before keys. keys;
  reads_keys = true;
  unused = key_with (pos 5) 0;
}

start_program-Started_example : Started outside empty_tables (start_program outside empty_tables)
start_program-Started_example = start_program-Started outside empty_tables
