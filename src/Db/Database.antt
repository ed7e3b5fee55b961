-- ===== src/Db/Database.antt =====
-- The database of internal/db/adapter.go as its four tables, and what becomes of them by the calls
-- whose error the caller drops: one that fails changes nothing.
use go_key_pool_system.Prelude.{ℕ, Bool, List, [], ◌∷◌}
use go_key_pool_system.Db.Adapter.{
  ApiKey, Request, Write, create_key_event, update_api_key_last_used, update_api_key_health,
  update_request_status, update_request_result,
}
use go_key_pool_system.Db.Keys
use go_key_pool_system.Db.Requests
use go_key_pool_system.Db.Settings.{EventRow, Setting, create_key_event as add_key_event}

pub record Database : Type 0 where
  pub api_keys : List ApiKey
  pub requests : List Request
  pub key_events : List EventRow
  pub system_config : List Setting

unfoldable pub perform : Bool → ℕ → Write → Database → Database
perform up now (create_key_event event) db = record db {
  key_events = (add_key_event up now event db.key_events).1;
}
perform up now (update_api_key_last_used id) db = record db {
  api_keys = (Keys.update_last_used up now id db.api_keys).1;
}
perform up now (update_api_key_health id healthy count state) db = record db {
  api_keys = (Keys.update_health up now id healthy count state db.api_keys).1;
}
perform up now (update_request_status id status key attempts) db = record db {
  requests = (Requests.update_status up now id status key attempts db.requests).1;
}
perform up now (update_request_result id status code body error completed) db = record db {
  requests = (Requests.update_result up now id status code body error completed db.requests).1;
}

unfoldable pub perform_all : Bool → ℕ → List Write → Database → Database
perform_all up now [] db = db
perform_all up now (w ∷ ws) db = perform_all up now ws (perform up now w db)
