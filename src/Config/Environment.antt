-- ===== src/Config/Environment.antt =====
-- internal/config/helpers.go. The environment and the parsers of strconv are given; an unset
-- variable reads as the empty text. A duration is a number of nanoseconds.
use go_key_pool_system.Prelude.{
  ℕ, ◌+◌, ◌-◌, ◌*◌, String, Bool, Option, none, some, if◌then◌else◌, str_eq,
}
use go_key_pool_system.Prelude.Int.{ℤ, pos, negsuc}

-- Go's floating-point numbers, with the constants and comparisons that the configuration uses.
pub record Floats (F : Type 0) : Type 0 where
  pub zero_point : F
  pub quarter : F
  pub half : F
  pub one_point : F
  pub below : F → F → Bool
  pub same : F → F → Bool

-- os.Getenv, strconv.Atoi, strconv.ParseBool and strconv.ParseFloat.
pub record Environment (F : Type 0) : Type 0 where
  pub getenv : String → String
  pub atoi : String → Option ℤ
  pub parse_bool : String → Option Bool
  pub parse_float : String → Option F
  pub floats : Floats F

-- time.Second, and a number of units.
abbrev pub second : ℕ
second = 1000000000

abbrev pub scale : ℤ → ℕ → ℤ
scale (pos n) unit = pos (n * unit)
scale (negsuc n) unit = negsuc ((n + 1) * unit - 1)

-- The parsed value of a variable, or the default where it is empty or does not parse.
abbrev pub parsed_or : {A : Type 0} → String → Option A → A → A
parsed_or value none default = default
parsed_or value (some a) default = if str_eq value "" then default else a

module _ {F : Type 0} (env : Environment F) where
  abbrev pub get_env : String → String → String
  get_env key default = let value = env.getenv key in if str_eq value "" then default else value

  abbrev pub get_env_as_int : String → ℤ → ℤ
  get_env_as_int key default =
      let value = env.getenv key in parsed_or value (env.atoi value) default

  abbrev pub get_env_as_bool : String → Bool → Bool
  get_env_as_bool key default =
      let value = env.getenv key in parsed_or value (env.parse_bool value) default

  abbrev pub get_env_as_float : String → F → F
  get_env_as_float key default =
      let value = env.getenv key in parsed_or value (env.parse_float value) default

  abbrev pub get_env_as_duration : String → ℤ → ℕ → ℤ
  get_env_as_duration key default unit =
      let value = env.getenv key in scale (parsed_or value (env.atoi value) default) unit
