-- ===== src/Api/Router.antt =====
-- internal/api/router.go and middleware.go. http.ServeMux takes the longest pattern that the path
-- meets, where one that ends in "/" is met by every path that starts with it. A path is clean: what
-- ServeMux would redirect to another one does not come here.
pub mod Guarded
use go_key_pool_system.Prelude.{
  ℕ, String, Bool, true, false, ◌||◌, not, Option, none, some, List, [], ◌∷◌, if◌then◌else◌, str_eq,
}
use go_key_pool_system.Prelude.Texts.{has_suffix, split_two}
use go_key_pool_system.Api.Http.{HttpIn, Outcome, write_error}
use go_key_pool_system.Api.Server.{Server, Library, Call}
use go_key_pool_system.Api.Submit.{health_check, submit_request, get_request_status}
use go_key_pool_system.Api.Keys.{
  add_key, list_keys, delete_key, update_key_weight, reset_key_circuit,
}
use go_key_pool_system.Api.Settings.{pool_health_handler, get_config, update_config}
use text.Mathlib.Text.{starts_with}

-- A handler with the request that it answers.
abbrev pub Handler : Type 0
Handler = HttpIn → Server → Outcome × Server

unfoldable pub admin_auth : Library → String → Handler → Handler
admin_auth lib token next r s =
    if str_eq r.authorization ""
    then (write_error 401 "missing authorization header", s)
    else elim (split_two r.authorization " ") [
      | none ↦ (write_error 401 "invalid authorization format", s)
      | some parts ↦
          if not (lib.equal_fold parts.0 "bearer")
          then (write_error 401 "invalid authorization format", s)
          else if not (str_eq parts.1 token)
          then (write_error 401 "invalid admin token", s)
          else next r s
    ]

unfoldable pub route_admin_keys_list : Library → Call → Handler
route_admin_keys_list lib call r s =
    if str_eq r.method "GET"
    then list_keys lib call r s
    else if str_eq r.method "POST"
    then add_key lib call r s
    else (write_error 405 "method not allowed", s)

unfoldable pub path_ends_with : String → String → Bool
path_ends_with path suffix = has_suffix path suffix

unfoldable pub route_admin_keys : Library → Call → Handler
route_admin_keys lib call r s =
    if path_ends_with r.path "/reset"
    then reset_key_circuit call r s
    else if path_ends_with r.path "/weight"
    then update_key_weight lib call r s
    else delete_key call r s

unfoldable pub route_admin_config : Library → Call → Handler
route_admin_config lib call r s =
    if str_eq r.method "GET"
    then get_config call r s
    else if str_eq r.method "PUT"
    then update_config lib call r s
    else (write_error 405 "method not allowed", s)

-- The handler of an admin route, behind its check.
unfoldable pub admin_route : Library → Call → String → Option Handler
admin_route lib call path =
    if starts_with path "/admin/keys/"
    then some (route_admin_keys lib call)
    else if str_eq path "/admin/keys"
    then some (route_admin_keys_list lib call)
    else if str_eq path "/admin/health"
    then some pool_health_handler
    else if str_eq path "/admin/config"
    then some (route_admin_config lib call)
    else none

unfoldable pub public_route : Library → Call → String → Option Handler
public_route lib call path =
    if str_eq path "/health"
    then some (λ r s. health_check s)
    else if starts_with path "/api/requests/"
    then some (get_request_status call)
    else if str_eq path "/api/requests"
    then some (submit_request lib call)
    else none

-- The mux of NewRouter, for the admin token of the configuration.
unfoldable pub router : Library → String → Call → Handler
router lib token call r s = elim (public_route lib call r.path) [
  | some handler ↦ handler r s
  | none ↦ elim (admin_route lib call r.path) [
    | some handler ↦ admin_auth lib token handler r s
    | none ↦ (write_error 404 "404 page not found", s)
  ]
]
