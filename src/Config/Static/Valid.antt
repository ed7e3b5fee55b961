-- ===== src/Config/Static/Valid.antt =====
-- What the checks of internal/config/config.go let through.
use Prim.Native.String.{len}
use go_key_pool_system.Prelude.{
  String, true, false, ◌≡◌, ◌↔◌, refl, inr, Option, none, some, List, ◌∷◌, arith, str_eq, eq_iff,
  subst, ap,
}
use go_key_pool_system.Prelude.Int.{ℤ, pos, ◌≤ℤ◌, eq_of_parts}
use go_key_pool_system.Config.Environment.{Environment}
use go_key_pool_system.Config.Validators.{
  ConfigError, valid_strategies, valid_log_levels, valid_log_formats, validate_encryption_key,
  validate_admin_token, validate_db_max_open_conns, validate_strategy, validate_log_level,
  validate_log_format, validate_positive_int,
}
use go_key_pool_system.Config.Static.{Config, first_error, validate, read_config, checked, load}

pub record IsValid {F : Type 0} (c : Config F) : Type 0 where
  pub key : len c.encryption_key ≡ 64
  pub token : str_eq c.admin_token "" ≡ false
  pub conns : c.db_max_open_conns ≡ pos 1
  pub strategy : valid_strategies c.key_pool_strategy ≡ true
  pub level : valid_log_levels c.log_level ≡ true
  pub format : valid_log_formats c.log_format ≡ true
  pub workers : pos 1 ≤ℤ c.worker_count
  pub queue : pos 1 ≤ℤ c.queue_max_size
  pub attempts : pos 1 ≤ℤ c.retry_max_attempts

first_error-cons :
    (o : Option ConfigError) (os : List (Option ConfigError))
    → first_error (o ∷ os) ≡ none
    → (o ≡ none) × (first_error os ≡ none)
unfolding first_error
first_error-cons none os h = (refl, h)
first_error-cons (some e) os h = absurd cc

-- What each check lets through.
empty_length : (key : String) → key ≡ "" → len key ≡ 0
empty_length key e = ap len e

encryption_key_iff : (key : String) → (validate_encryption_key key ≡ none) ↔ (len key ≡ 64)
unfolding validate_encryption_key
encryption_key_iff key = ground (arith, eq_iff key "", λ (e : key ≡ ""). empty_length key e)

admin_token_iff : (t : String) → (validate_admin_token t ≡ none) ↔ (str_eq t "" ≡ false)
unfolding validate_admin_token
admin_token_iff t = ground arith

conns_iff : (n : ℤ) → (validate_db_max_open_conns n ≡ none) ↔ (n ≡ pos 1)
unfolding validate_db_max_open_conns
conns_iff n = ground (arith, eq_of_parts n (pos 1))

strategy_iff : (s : String) → (validate_strategy s ≡ none) ↔ (valid_strategies s ≡ true)
unfolding validate_strategy
strategy_iff s = ground arith

level_iff : (s : String) → (validate_log_level s ≡ none) ↔ (valid_log_levels s ≡ true)
unfolding validate_log_level
level_iff s = ground arith

format_iff : (s : String) → (validate_log_format s ≡ none) ↔ (valid_log_formats s ≡ true)
unfolding validate_log_format
format_iff s = ground arith

positive_iff : (name : String) (n : ℤ) → (validate_positive_int name n ≡ none) ↔ (pos 1 ≤ℤ n)
unfolding validate_positive_int
positive_iff name n = ground arith

module _ {F : Type 0} where
  passed : (c : Config F) → validate c ≡ none → IsValid c
  unfolding validate
  passed c h =
      let (a, h1) = first_error-cons _ _ h in
      let (b, h2) = first_error-cons _ _ h1 in
      let (d, h3) = first_error-cons _ _ h2 in
      let (e, h4) = first_error-cons _ _ h3 in
      let (f, h5) = first_error-cons _ _ h4 in
      let (g, h6) = first_error-cons _ _ h5 in
      let (i, h7) = first_error-cons _ _ h6 in
      let (j, h8) = first_error-cons _ _ h7 in
      let (k, h9) = first_error-cons _ _ h8 in
      record {
        key = (encryption_key_iff _).0 a;
        token = (admin_token_iff _).0 b;
        conns = (conns_iff _).0 d;
        strategy = (strategy_iff _).0 e;
        level = (level_iff _).0 f;
        format = (format_iff _).0 g;
        workers = (positive_iff _ _).0 i;
        queue = (positive_iff _ _).0 j;
        attempts = (positive_iff _ _).0 k;
      }

  passes : (c : Config F) → IsValid c → validate c ≡ none
  unfolding validate first_error
  passes c v =
      rw
        (
          (encryption_key_iff c.encryption_key).1 v.key,
          (admin_token_iff c.admin_token).1 v.token,
          (conns_iff c.db_max_open_conns).1 v.conns,
          (strategy_iff c.key_pool_strategy).1 v.strategy,
          (level_iff c.log_level).1 v.level,
          (format_iff c.log_format).1 v.format,
          (positive_iff "WORKER_COUNT" c.worker_count).1 v.workers,
          (positive_iff "QUEUE_MAX_SIZE" c.queue_max_size).1 v.queue,
          (positive_iff "RETRY_MAX_ATTEMPTS" c.retry_max_attempts).1 v.attempts,
        )
        refl

  -- The checks pass exactly the configurations that have an encryption key of 64 bytes, a token, one
  -- database connection, a known strategy, log level and log format, and at least one worker, one
  -- place in the queue and one attempt.
  pub validate_iff : (c : Config F) → (validate c ≡ none) ↔ IsValid c
  validate_iff c = (passed c, passes c)

  checked-inr :
      (c c' : Config F) (o : Option ConfigError) → checked c o ≡ inr c' → (o ≡ none) × (c ≡ c')
  unfolding checked
  checked-inr c c' none h = (refl, cc)
  checked-inr c c' (some e) h = absurd cc

  -- What `load` returns without an error is what the environment says, and passes every check.
  pub load-IsValid :
      (env : Environment F) (c : Config F) → load env ≡ inr c → (read_config env ≡ c) × IsValid c
  unfolding load
  load-IsValid env c h =
      let (passes, same) = checked-inr (read_config env) c (validate (read_config env)) h in
      (same, subst IsValid same (passed (read_config env) passes))
