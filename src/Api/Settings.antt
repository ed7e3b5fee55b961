-- ===== src/Api/Settings.antt =====
-- The handlers of internal/api/handlers.go for the system's configuration and its health.
use go_key_pool_system.Prelude.{ℕ, suc, String, not, List, [], ◌∷◌, inl, inr, if◌then◌else◌, str_eq}
use go_key_pool_system.Db.Table.{ok, err}
use go_key_pool_system.Db.Settings.{Setting, get_system_config, update_system_config}
use go_key_pool_system.Keypool.Health.{get_health_status, pool_size}
use go_key_pool_system.Queue.Bounded.{size}
use go_key_pool_system.Api.Http.{
  HttpIn, Outcome, write_json, write_error, object, settings, pool_health, text,
}
use go_key_pool_system.Api.Server.{Server, Library, Call}
use Prim.Native.String.{◌++◌ as str_append}

unfoldable pub pool_health_handler : HttpIn → Server → Outcome × Server
pool_health_handler r s =
    if not (str_eq r.method "GET") then (write_error 405 "method not allowed", s) else (
      write_json 200 (pool_health (pool_size s.pool) (size s.queue) (get_health_status s.pool)),
      s,
    )

unfoldable pub get_config : Call → HttpIn → Server → Outcome × Server
get_config call r s =
    if not (str_eq r.method "GET")
    then (write_error 405 "method not allowed", s)
    else elim (get_system_config (call.up 0) s.db.system_config) [
      | err e ↦ (write_error 500 "database error", s)
      | ok cfg ↦ (write_json 200 (settings cfg), s)
    ]

abbrev with_settings : List Setting → Server → Server
with_settings rows s = record s { db = record s.db { system_config = rows } }

-- The loop over the body, from the call number `n` of the database on: it ends at the first error.
unfoldable pub update_all : Call → ℕ → List (String × String) → Server → Outcome × Server
update_all call n [] s = (write_json 200 (object (("status", text "updated") ∷ [])), s)
update_all call n ((key, value) ∷ body) s =
    let (answer, rows) = update_system_config (call.up n) call.now key value s.db.system_config in
    let rest = update_all call (suc n) body (with_settings rows s) in
    elim answer [
      | err e ↦
          (write_error 500 (str_append "failed to update config key: " key), with_settings rows s)
      | ok u ↦ rest
    ]

unfoldable pub update_config : Library → Call → HttpIn → Server → Outcome × Server
update_config lib call r s =
    if not (str_eq r.method "PUT")
    then (write_error 405 "method not allowed", s)
    else elim (lib.decode_settings r.body) [
      | inl error ↦ (write_error 400 (str_append "invalid JSON: " error), s)
      | inr body ↦ update_all call 0 body s
    ]
