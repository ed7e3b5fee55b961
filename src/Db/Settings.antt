-- ===== src/Db/Settings.antt =====
-- internal/db/sqlite_config.go: the tables key_events and system_config and their operations. `up`,
-- `now` and `sort` are as in Db/Keys.antt. A Go map is a function to `Option`.
pub mod RoundTrip
use go_key_pool_system.Prelude.{
  ◌≡◌, ℕ, String, Bool, true, false, Option, none, some, List, [], ◌∷◌, ◌++◌, ltb, map,
  if◌then◌else◌, str_eq,
}
use go_key_pool_system.Prelude.Int.{ℤ}
use go_key_pool_system.Db.Adapter.{KeyEvent}
use go_key_pool_system.Db.Table.{
  Answer, ok, err, unavailable, select_where, update_where, is_some, has, is_taken, select_one,
  exec, exec_insert,
}
use go_key_pool_system.Db.Scan.{column_of, pointer_to}
use go_key_pool_system.Db.Requests.{limited}

pub record EventRow : Type 0 where
  pub event : KeyEvent
  pub open event use *
  pub created_at : ℕ

abbrev pub event_id : EventRow → Option String
event_id row = some row.id

unfoldable pub create_key_event : Bool → ℕ → KeyEvent → List EventRow → Answer Unit × List EventRow
create_key_event up now event events =
    exec_insert up (is_taken event_id (some event.id) events)
      (record { event = event; created_at = now }) events

abbrev pub scan_key_event : EventRow → EventRow
scan_key_event row = record row {
  event = record row.event { message = pointer_to (column_of "" row.message) };
}

-- ORDER BY created_at DESC
unfoldable pub get_key_events :
    ((EventRow → EventRow → Bool) → List EventRow → List EventRow)
    → Bool
    → String
    → ℤ
    → List EventRow
    → Answer (List EventRow)
get_key_events sort up key_id limit events =
    if up
    then ok (
        map scan_key_event (
          limited limit (
            sort (λ x y. ltb y.created_at x.created_at)
              (select_where (λ row. str_eq row.key_id key_id) events))))
    else err unavailable

pub record Setting : Type 0 where
  pub key : String
  pub value : String
  pub description : Option String
  pub updated_at : ℕ

abbrev pub SettingMap : Type 0
SettingMap = String → Option String

-- config[key] = value, for each row in turn.
unfoldable pub settings_map : List Setting → SettingMap → SettingMap
settings_map [] config = config
settings_map (row ∷ rows) config =
    settings_map rows (λ key. if str_eq row.key key then some row.value else config key)

unfoldable pub get_system_config : Bool → List Setting → Answer SettingMap
get_system_config up settings =
    if up then ok (settings_map settings (λ key. none)) else err unavailable

abbrev pub setting_key : Setting → Option String
setting_key row = some row.key

abbrev pub with_setting : String → Setting → Bool
with_setting key row = has setting_key key row

abbrev pub with_value : ℕ → String → Setting → Setting
with_value now value row = record row { value = value; updated_at = now }

-- INSERT ... ON CONFLICT(key) DO UPDATE
unfoldable pub update_system_config :
    Bool → ℕ → String → String → List Setting → Answer Unit × List Setting
update_system_config up now key value settings =
    exec up
      (if is_some (select_one (with_setting key) settings)
        then update_where (with_setting key) (with_value now value) settings
        else settings
          ++ record { key = key; value = value; description = none; updated_at = now } ∷ [])
      settings
