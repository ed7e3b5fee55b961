-- ===== src/Config/Static.antt =====
-- internal/config/config.go. Load returns the configuration, or the error of the first check that
-- fails.
pub mod Valid
use go_key_pool_system.Prelude.{
  String, Bool, true, false, ◌⊎◌, inl, inr, Option, none, some, List, [], ◌∷◌,
}
use go_key_pool_system.Prelude.Int.{ℤ, pos}
use go_key_pool_system.Config.Environment.{
  Environment, second, get_env, get_env_as_int, get_env_as_bool, get_env_as_float,
  get_env_as_duration,
}
use go_key_pool_system.Config.Validators.{
  ConfigError, validate_encryption_key, validate_admin_token, validate_db_max_open_conns,
  validate_strategy, validate_log_level, validate_log_format, validate_positive_int,
}

pub record Config (F : Type 0) : Type 0 where
  pub server_port : ℤ
  pub server_read_timeout : ℤ
  pub server_write_timeout : ℤ
  pub server_idle_timeout : ℤ
  pub server_shutdown_timeout : ℤ
  pub db_path : String
  pub db_max_open_conns : ℤ
  pub db_busy_timeout_ms : ℤ
  pub encryption_key : String
  pub admin_token : String
  pub worker_count : ℤ
  pub worker_warmup_period : ℤ
  pub queue_max_size : ℤ
  pub queue_high_priority_preempts_low : Bool
  pub key_pool_strategy : String
  pub key_pool_reload_interval : ℤ
  pub key_pool_health_check_interval : ℤ
  pub circuit_breaker_failure_threshold : ℤ
  pub circuit_breaker_open_duration : ℤ
  pub circuit_breaker_probe_timeout : ℤ
  pub retry_max_attempts : ℤ
  pub retry_base_delay_ms : ℤ
  pub retry_max_delay_ms : ℤ
  pub retry_jitter_max_ms : ℤ
  pub http_client_timeout : ℤ
  pub http_client_max_idle_conns : ℤ
  pub http_client_idle_conn_timeout : ℤ
  pub load_shed_level1_threshold : F
  pub load_shed_level2_threshold : F
  pub config_reload_interval : ℤ
  pub log_level : String
  pub log_format : String
  pub log_requests : Bool
  pub metrics_enabled : Bool
  pub metrics_path : String

-- `if err := check; err != nil { return err }`, for one check after the other.
unfoldable pub first_error : List (Option ConfigError) → Option ConfigError
first_error [] = none
first_error (none ∷ checks) = first_error checks
first_error (some error ∷ checks) = some error

unfoldable pub validate : {F : Type 0} → Config F → Option ConfigError
validate c = first_error (
    validate_encryption_key c.encryption_key
    ∷ validate_admin_token c.admin_token
    ∷ validate_db_max_open_conns c.db_max_open_conns
    ∷ validate_strategy c.key_pool_strategy
    ∷ validate_log_level c.log_level
    ∷ validate_log_format c.log_format
    ∷ validate_positive_int "WORKER_COUNT" c.worker_count
    ∷ validate_positive_int "QUEUE_MAX_SIZE" c.queue_max_size
    ∷ validate_positive_int "RETRY_MAX_ATTEMPTS" c.retry_max_attempts
    ∷ [])

-- The configuration, or the error.
unfoldable pub checked : {F : Type 0} → Config F → Option ConfigError → ConfigError ⊎ Config F
checked c none = inr c
checked c (some error) = inl error

module _ {F : Type 0} (env : Environment F) where
  -- The fields as the variables and the defaults give them.
  unfoldable pub read_config : Config F
  read_config = record {
    server_port = get_env_as_int env "SERVER_PORT" (pos 8080);
    server_read_timeout = get_env_as_duration env "SERVER_READ_TIMEOUT_SECONDS" (pos 30) second;
    server_write_timeout = get_env_as_duration env "SERVER_WRITE_TIMEOUT_SECONDS" (pos 30) second;
    server_idle_timeout = get_env_as_duration env "SERVER_IDLE_TIMEOUT_SECONDS" (pos 120) second;
    server_shutdown_timeout =
        get_env_as_duration env "SERVER_SHUTDOWN_TIMEOUT_SECONDS" (pos 30) second;
    db_path = get_env env "DB_PATH" "./data/pool.db";
    db_max_open_conns = get_env_as_int env "DB_MAX_OPEN_CONNS" (pos 1);
    db_busy_timeout_ms = get_env_as_int env "DB_BUSY_TIMEOUT_MS" (pos 5000);
    encryption_key = get_env env "ENCRYPTION_KEY" "";
    admin_token = get_env env "ADMIN_TOKEN" "";
    worker_count = get_env_as_int env "WORKER_COUNT" (pos 10);
    worker_warmup_period = get_env_as_duration env "WORKER_WARMUP_SECONDS" (pos 30) second;
    queue_max_size = get_env_as_int env "QUEUE_MAX_SIZE" (pos 1000);
    queue_high_priority_preempts_low = get_env_as_bool env "QUEUE_HIGH_PRIORITY_PREEMPTS_LOW" true;
    key_pool_strategy = get_env env "KEY_POOL_STRATEGY" "round_robin";
    key_pool_reload_interval =
        get_env_as_duration env "KEY_POOL_RELOAD_INTERVAL_SECONDS" (pos 60) second;
    key_pool_health_check_interval =
        get_env_as_duration env "KEY_POOL_HEALTH_CHECK_INTERVAL_SECONDS" (pos 10) second;
    circuit_breaker_failure_threshold =
        get_env_as_int env "CIRCUIT_BREAKER_FAILURE_THRESHOLD" (pos 3);
    circuit_breaker_open_duration =
        get_env_as_duration env "CIRCUIT_BREAKER_OPEN_DURATION_SECONDS" (pos 60) second;
    circuit_breaker_probe_timeout =
        get_env_as_duration env "CIRCUIT_BREAKER_PROBE_TIMEOUT_SECONDS" (pos 10) second;
    retry_max_attempts = get_env_as_int env "RETRY_MAX_ATTEMPTS" (pos 4);
    retry_base_delay_ms = get_env_as_int env "RETRY_BASE_DELAY_MS" (pos 1000);
    retry_max_delay_ms = get_env_as_int env "RETRY_MAX_DELAY_MS" (pos 30000);
    retry_jitter_max_ms = get_env_as_int env "RETRY_JITTER_MAX_MS" (pos 500);
    http_client_timeout = get_env_as_duration env "HTTP_CLIENT_TIMEOUT_SECONDS" (pos 30) second;
    http_client_max_idle_conns = get_env_as_int env "HTTP_CLIENT_MAX_IDLE_CONNS" (pos 100);
    http_client_idle_conn_timeout =
        get_env_as_duration env "HTTP_CLIENT_IDLE_CONN_TIMEOUT_SECONDS" (pos 90) second;
    load_shed_level1_threshold = get_env_as_float env "LOAD_SHED_LEVEL_1_THRESHOLD" env.floats.half;
    load_shed_level2_threshold =
        get_env_as_float env "LOAD_SHED_LEVEL_2_THRESHOLD" env.floats.quarter;
    config_reload_interval =
        get_env_as_duration env "CONFIG_RELOAD_INTERVAL_SECONDS" (pos 30) second;
    log_level = get_env env "LOG_LEVEL" "info";
    log_format = get_env env "LOG_FORMAT" "json";
    log_requests = get_env_as_bool env "LOG_REQUESTS" true;
    metrics_enabled = get_env_as_bool env "METRICS_ENABLED" true;
    metrics_path = get_env env "METRICS_PATH" "/metrics";
  }

  unfoldable pub load : ConfigError ⊎ Config F
  load = checked read_config (validate read_config)
