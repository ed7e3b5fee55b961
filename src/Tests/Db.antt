-- ===== src/Tests/Db.antt =====
-- Runs of internal/db at concrete inputs, and of a worker on its tables.
use go_key_pool_system.Prelude.{
  ℕ, ◌≡◌, ◌≢◌, refl, ap, sym, ◌∙◌, String, true, false, Option, none, some, [], ◌∷◌, arith,
}
use go_key_pool_system.Prelude.Int.{pos}
use go_key_pool_system.Db.Adapter.{ApiKey, success, closed}
use go_key_pool_system.Db.Table.{ok, err, not_found, Unique, query_row}
use go_key_pool_system.Db.Scan.{scan_request_same}
use go_key_pool_system.Db.Keys
use go_key_pool_system.Db.Keys.{create_call, weight_call, delete_call}
use go_key_pool_system.Db.Keys.Refines.{KeyHistory, table_run, map_run, table_run-Refines}
use go_key_pool_system.Db.Requests
use go_key_pool_system.Db.Requests.History.{
  IsKeyed, Keeps, RequestHistory, table_after, table_after-Keeps,
}
use go_key_pool_system.Db.Settings.{get_system_config, update_system_config, settings_map}
use go_key_pool_system.Db.Settings.RoundTrip.{assigned, get_system_config-update_system_config}
use go_key_pool_system.Db.Database.{Database}
use go_key_pool_system.Worker.Lifecycle.{serve_rounds}
use go_key_pool_system.Worker.Lifecycle.Settles.{IsSettledAt, serve_rounds-settles}
use go_key_pool_system.Tests.Keypool.{pool, pool_gives}
use go_key_pool_system.Keypool.Manager.{get_key}
use go_key_pool_system.Tests.Worker.{worker, request}

abbrev pub key : ApiKey
key = record {
  id = "a";
  name = "first";
  key_encrypted = "00";
  weight = pos 1;
  is_healthy = true;
  failure_count = 0;
  circuit_state = closed;
  last_used_at = none;
  rate_limit_per_minute = pos 60;
  rate_limit_per_day = pos 10000;
  concurrent_limit = pos 5;
  current_concurrent = pos 0;
  created_at = 0;
  updated_at = 0;
}

-- A key is created, created again, given a weight, and deleted twice.
abbrev key_history : KeyHistory
key_history =
    (true, 1, create_call key)
    ∷ (true, 2, create_call key)
    ∷ (true, 3, weight_call "a" (pos 4))
    ∷ (false, 4, delete_call "a")
    ∷ (true, 5, delete_call "a")
    ∷ (true, 6, delete_call "a")
    ∷ []

table_run-Refines_example :
    ((table_run key_history []).0 ≡ (map_run key_history (λ id. none)).0)
    × ((id : String)
        → Keys.get true id (table_run key_history []).1
          ≡ elim ((map_run key_history (λ id. none)).1 id) [
            | none ↦ err not_found
            | some key ↦ ok key
          ])
    × Unique Keys.key_id (table_run key_history []).1
table_run-Refines_example = table_run-Refines key_history

one_request : IsKeyed (request ∷ [])
one_request = record { ids = (refl, tt); idempotency = (refl, tt) }

abbrev request_history : RequestHistory
request_history =
    (true, 1, Requests.create_call request)
    ∷ (true, 2, Requests.result_call "r" success (pos 200) "" "" 2)
    ∷ []

table_after-Keeps_example :
    IsKeyed (table_after request_history (request ∷ []))
    × Keeps (request ∷ []) (table_after request_history (request ∷ []))
table_after-Keeps_example = table_after-Keeps request_history (request ∷ []) one_request

get_system_config-update_system_config_example :
    get_system_config true (update_system_config true 5 "strategy" "weighted" []).1
    ≡ ok (assigned "strategy" "weighted" (settings_map [] (λ k. none)))
get_system_config-update_system_config_example =
    get_system_config-update_system_config true 5 "strategy" "weighted" []

abbrev pub tables : Database
tables = record {
  api_keys = key ∷ [];
  requests = record request { attempts = 2 } ∷ [];
  key_events = [];
  system_config = [];
}

loads : Requests.get true "r" tables.requests ≡ ok (record request { attempts = 2 })
unfolding Requests.get query_row
loads = ap ok (scan_request_same (record request { attempts = 2 }))

some-none : ◌≡◌ {A = Option ℕ} (some 0) none → ⊥
some-none e = ground (arith, e)

pub gives : (get_key 7 pool).0 ≢ none
gives e = some-none (sym pool_gives ∙ e)

serve_rounds-settles_example : IsSettledAt "r" (serve_rounds worker "r" ((7, 9, pool) ∷ []) tables)
serve_rounds-settles_example =
    serve_rounds-settles worker "r" ((7, 9, pool) ∷ []) tables (record request { attempts = 2 })
      loads (gives, tt) (omega arith) (omega arith)
