-- ===== src/Config/Validators.antt =====
-- internal/config/validators.go. An error is given by its kind, and by the numbers and texts that
-- its message shows.
use Prim.Native.String.{len}
use go_key_pool_system.Prelude.{
  ℕ, String, Bool, ◌||◌, Option, none, some, ◌==◌, if◌then◌else◌, str_eq,
}
use go_key_pool_system.Prelude.Int.{ℤ, pos, ltb_ℤ, eqb_ℤ}

pub data ConfigError : Type 0 where
  encryption_key_required : ConfigError
  encryption_key_length : ℕ → ConfigError
  admin_token_required : ConfigError
  db_max_open_conns_not_one : ℤ → ConfigError
  unknown_strategy : String → ConfigError
  unknown_log_level : String → ConfigError
  unknown_log_format : String → ConfigError
  not_positive : String → ℤ → ConfigError

-- ValidStrategies[s], and the two other sets.
abbrev pub valid_strategies : String → Bool
valid_strategies s = str_eq s "round_robin" || str_eq s "weighted_round_robin"

abbrev pub valid_log_levels : String → Bool
valid_log_levels s = str_eq s "debug" || str_eq s "info" || str_eq s "warn" || str_eq s "error"

abbrev pub valid_log_formats : String → Bool
valid_log_formats s = str_eq s "json" || str_eq s "pretty"

unfoldable pub validate_encryption_key : String → Option ConfigError
validate_encryption_key key =
    if str_eq key ""
    then some encryption_key_required
    else if len key == 64
    then none
    else some (encryption_key_length (len key))

unfoldable pub validate_admin_token : String → Option ConfigError
validate_admin_token token = if str_eq token "" then some admin_token_required else none

unfoldable pub validate_db_max_open_conns : ℤ → Option ConfigError
validate_db_max_open_conns conns =
    if eqb_ℤ conns (pos 1) then none else some (db_max_open_conns_not_one conns)

unfoldable pub validate_strategy : String → Option ConfigError
validate_strategy strategy =
    if valid_strategies strategy then none else some (unknown_strategy strategy)

unfoldable pub validate_log_level : String → Option ConfigError
validate_log_level level = if valid_log_levels level then none else some (unknown_log_level level)

unfoldable pub validate_log_format : String → Option ConfigError
validate_log_format format =
    if valid_log_formats format then none else some (unknown_log_format format)

unfoldable pub validate_positive_int : String → ℤ → Option ConfigError
validate_positive_int name value =
    if ltb_ℤ value (pos 1) then some (not_positive name value) else none
