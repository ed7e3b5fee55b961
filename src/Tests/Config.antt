-- ===== src/Tests/Config.antt =====
-- Runs of internal/config at concrete inputs: an environment that sets the two required variables.
use go_key_pool_system.Prelude.{
  ℕ, String, ◌≡◌, ◌↔◌, refl, Option, none, some, arith, ltb, ◌==◌, if◌then◌else◌, str_eq,
}
use go_key_pool_system.Prelude.Int.{pos}
use go_key_pool_system.Config.Environment.{Environment}
use go_key_pool_system.Config.Validators.{
  validate_encryption_key, validate_admin_token, validate_db_max_open_conns, validate_strategy,
  validate_log_level, validate_log_format, validate_positive_int,
}
use go_key_pool_system.Config.Static.{read_config, validate, first_error}
use go_key_pool_system.Config.Static.Valid.{IsValid, validate_iff}
use go_key_pool_system.Config.HotReload.{update}
use go_key_pool_system.Config.HotReload.Update.{IsUsable, update-IsUsable}
use go_key_pool_system.Tests.Keypool.{hot}

abbrev variable : String → String
variable name =
    if str_eq name "ENCRYPTION_KEY"
    then "0123456789abcdef0123456789abcdef0123456789abcdef0123456789abcdef"
    else if str_eq name "ADMIN_TOKEN"
    then "secret"
    else ""

abbrev pub env : Environment ℕ
env = record {
  getenv = variable;
  atoi = λ s. if str_eq s "7" then some (pos 7) else none;
  parse_bool = λ s. none;
  parse_float = λ s. none;
  floats = record {
    zero_point = 0;
    quarter = 25;
    half = 50;
    one_point = 100;
    below = ltb;
    same = λ x y. x == y;
  };
}

passes : validate (read_config env) ≡ none
unfolding validate first_error read_config validate_encryption_key validate_admin_token
    validate_db_max_open_conns validate_strategy validate_log_level validate_log_format
    validate_positive_int
passes = refl

validate_iff_example : (validate (read_config env) ≡ none) ↔ IsValid (read_config env)
validate_iff_example = validate_iff (read_config env)

abbrev table : String → Option String
table key = if str_eq key "worker_count" then some "7" else some "none"

hot-IsUsable : IsUsable hot
hot-IsUsable = record {
  workers = omega arith;
  queue = omega arith;
  strategy = refl;
  threshold = omega arith;
  duration = omega arith;
  attempts = omega arith;
  base = omega arith;
  max = omega arith;
}

update-IsUsable_example : IsUsable (update env table hot).1
update-IsUsable_example = update-IsUsable env table hot hot-IsUsable

abbrev bad_table : String → Option String
bad_table key = some "none"
