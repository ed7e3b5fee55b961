-- ===== src/Tests/Keypool.antt =====
-- Runs of internal/keypool at concrete inputs: a pool of two keys, of weights 2 and 1.
use go_key_pool_system.Prelude.{
  ℕ, ◌≤◌, ◌≡◌, ◌↔◌, refl, inl, inr, String, true, false, none, some, List, [], ◌∷◌, map, arith,
  if◌then◌else◌, ◌==◌, ne_of_str_eq, ap, sym, ◌∙◌, ◌+◌,
}
use go_key_pool_system.Prelude.Int.{ℤ, pos, pos_part, ◌≤ℤ◌, ◌<ℤ◌, ◌+ℤ◌}
use go_key_pool_system.Prelude.Members.{In, sum}
use go_key_pool_system.Db.Adapter.{closed, ApiKey}
use go_key_pool_system.Config.HotReload.{HotReloadConfig}
use go_key_pool_system.Keypool.CircuitBreaker.{CircuitBreaker, new, allow_request}
use go_key_pool_system.Keypool.CircuitBreaker.Machine.{succeeds, fails, run, IsValid, run-IsValid}
use go_key_pool_system.Keypool.PoolKey.{
  PoolKey, try_concurrent_acquire, try_rate_limit, reset_minute, reset_day, count_request,
}
use go_key_pool_system.Keypool.PoolKey.Limits.{served, minute_window}
use go_key_pool_system.Keypool.RoundRobin
use go_key_pool_system.Keypool.RoundRobin.{RoundRobin}
use go_key_pool_system.Keypool.RoundRobin.Rotation
use go_key_pool_system.Keypool.RoundRobin.Rotation.{rounds-rotation}
use go_key_pool_system.Keypool.WeightedRoundRobin.{no_weights}
use go_key_pool_system.Keypool.WeightedRoundRobin
use go_key_pool_system.Keypool.WeightedRoundRobin.Balance.{IsWeighted, total}
use go_key_pool_system.Keypool.WeightedRoundRobin.Fairness.{rounds, picked, rounds-fair}
use go_key_pool_system.Keypool.WeightedRoundRobin.Starvation.{Spent, select-none_iff}
use go_key_pool_system.Keypool.Manager.{
  Manager, get_key, collect, allows, try_keys, try_select, try_key, select, remove_key,
}
use go_key_pool_system.Keypool.Loading.{reload_keys}
use go_key_pool_system.Keypool.Manager.Keys.{this_minute, this_day, IsAllowed}
use go_key_pool_system.Keypool.Manager.GetKey.{slots, get_key_sound}
use go_key_pool_system.Keypool.Manager.Attempts.{two_keys_one_try}
use go_key_pool_system.Keypool.Manager.Reload.{IsAllocated, StandsAlone, Keeps, reload_keys-Keeps}
use go_key_pool_system.Keypool.Manager.Leases
use go_key_pool_system.Keypool.Manager.Holding.{put, System, Accounted, count, begin_lease}
use go_key_pool_system.Keypool.Manager.Leases.{Reach-Accounted}

abbrev breaker : CircuitBreaker
breaker = new (pos 2) (pos 1000)

-- The key of the address `k`; only its slots set the two pools below apart.
abbrev pub key_with : ℤ → ℕ → PoolKey
key_with limit k = record {
  id = if k == 0 then "a" else "b";
  name = "key";
  key_encrypted = "";
  weight = if k == 0 then pos 2 else pos 1;
  rate_limit_per_minute = pos 1;
  rate_limit_per_day = pos 2;
  concurrent_limit = limit;
  current_concurrent = 0;
  minute_counter = 0;
  day_counter = 0;
  minute_reset_at = 0;
  day_reset_at = 0;
  circuit_breaker = some breaker;
}

abbrev two : List ℕ
two = 0 ∷ 1 ∷ []

abbrev pool_of : ℤ → Manager
pool_of limit = record {
  store = key_with limit;
  fresh = 2;
  keys = two;
  round_robin = RoundRobin.new;
  weighted = no_weights;
  active_stmt = "round_robin";
}

abbrev pub pool : Manager
pool = pool_of (pos 5)

pub pool_gives : (get_key 7 pool).0 ≡ some 0
unfolding get_key collect allows try_keys try_select try_key select remove_key RoundRobin.select
    RoundRobin.new try_concurrent_acquire try_rate_limit reset_minute reset_day count_request new
    allow_request
pool_gives = refl

get_key_sound_example :
    In 0 two
    × IsAllowed ((get_key 7 pool).1.store 0)
    × (pos (slots pool 0) <ℤ pos 5)
    × (pos ((get_key 7 pool).1.store 0).minute_counter
        ≤ℤ ((get_key 7 pool).1.store 0).rate_limit_per_minute)
    × (pos ((get_key 7 pool).1.store 0).day_counter
        ≤ℤ ((get_key 7 pool).1.store 0).rate_limit_per_day)
    × (((get_key 7 pool).1.store 0).minute_counter ≡ this_minute 7 (pool.store 0) + 1)
    × (((get_key 7 pool).1.store 0).day_counter ≡ this_day 7 (pool.store 0) + 1)
get_key_sound_example = get_key_sound 7 pool 0 pool_gives

two_positive : pos 0 <ℤ total (key_with (pos 5)) two
unfolding sum ◌+ℤ◌
two_positive = omega arith

two_IsWeighted : IsWeighted (key_with (pos 5)) two
two_IsWeighted = record {
  distinct = ((ne_of_str_eq "a" "b" refl, tt), (tt, tt));
  nonneg = (omega arith, (omega arith, tt));
  positive = two_positive;
}

rounds-fair_example :
    pos (
      picked
        (key_with (pos 5))
        "a"
        (rounds (key_with (pos 5)) two (pos_part (total (key_with (pos 5)) two)) no_weights).0)
    ≡ pos 2
rounds-fair_example = rounds-fair (key_with (pos 5)) two 0 two_IsWeighted (inl refl)

two-IsAllocated : IsAllocated pool
two-IsAllocated = (omega arith, (omega arith, tt))

abbrev idle : System
idle = record { manager = pool; leases = []; trying = []; over = [] }

idle-Accounted : Accounted idle
unfolding count
idle-Accounted = record {
  allocated = two-IsAllocated;
  held = tt;
  tried = tt;
  given_back = tt;
  balanced = λ j l. refl;
}

-- Two calls of GetKey, the second one between two parts of the first.
abbrev half_way : System
half_way = record idle {
  manager = put 0 (try_concurrent_acquire (pool.store 0)).1 pool;
  trying = 0 ∷ [];
}

half_way-Reach : Leases.Reach ℕ idle half_way
unfolding try_concurrent_acquire
half_way-Reach = Leases.next Leases.here (Leases.acquires 0 (inl refl) refl)

Reach-Accounted_example : Accounted (record half_way {
  manager = (get_key 7 half_way.manager).1;
  leases = begin_lease (get_key 7 half_way.manager).0 [];
})
Reach-Accounted_example =
    Reach-Accounted ℕ idle-Accounted (Leases.next half_way-Reach (Leases.gets 7))

pool_tries : (collect 7 pool.store pool.keys).0 ≡ two
unfolding collect allows new allow_request
pool_tries = refl

abbrev full_pool : Manager
full_pool = pool_of (pos 0)

full_tries : (collect 7 full_pool.store full_pool.keys).0 ≡ two
unfolding collect allows new allow_request
full_tries = refl

full_fails :
    (try_select 7 two (record full_pool { store = (collect 7 full_pool.store full_pool.keys).1 })).1
    ≡ false
unfolding collect allows new allow_request try_select try_key select RoundRobin.select
    RoundRobin.new try_concurrent_acquire
full_fails = refl

two_keys_one_try_example : (get_key 7 full_pool).0 ≡ none
two_keys_one_try_example = two_keys_one_try 7 full_pool 0 1 (omega arith) full_tries full_fails

abbrev pub hot : HotReloadConfig ℕ
hot = record {
  worker_count = pos 1;
  queue_max_size = pos 10;
  strategy = "round_robin";
  circuit_breaker_threshold = pos 3;
  circuit_breaker_open_duration = pos 60;
  retry_max_attempts = pos 3;
  retry_base_delay_ms = pos 1000;
  retry_max_delay_ms = pos 30000;
  load_shed_level1_threshold = 0;
  load_shed_level2_threshold = 0;
}

abbrev row : ApiKey
row = record {
  id = "a";
  name = "renamed";
  key_encrypted = "secret";
  weight = pos 9;
  is_healthy = true;
  failure_count = 0;
  circuit_state = closed;
  last_used_at = none;
  rate_limit_per_minute = pos 1;
  rate_limit_per_day = pos 2;
  concurrent_limit = pos 5;
  current_concurrent = pos 0;
  created_at = 0;
  updated_at = 0;
}

first_alone : StandsAlone pool 0
first_alone = record {
  inside = inl refl;
  alone = λ j m e. elim m [
    | inl same ↦ same
    | inr other ↦ elim other [
      | inl same ↦ absurd (ne_of_str_eq "b" "a" refl (ap (λ i. (pool.store i).id) (sym same) ∙ e))
      | inr nowhere ↦ absurd nowhere
    ]
  ];
}

reload_keys-Keeps_example :
    (map
        (λ k. ((reload_keys hot (some (row ∷ [])) pool).1.store k).id)
        (reload_keys hot (some (row ∷ [])) pool).1.keys
      ≡ "a" ∷ [])
    × IsAllocated (reload_keys hot (some (row ∷ [])) pool).1
    × In 0 (reload_keys hot (some (row ∷ [])) pool).1.keys
    × Keeps (pool.store 0) ((reload_keys hot (some (row ∷ [])) pool).1.store 0)
reload_keys-Keeps_example =
    reload_keys-Keeps hot (row ∷ []) pool 0 row two-IsAllocated first_alone (inl refl) refl

select-none_iff_example :
    ((WeightedRoundRobin.select (key_with (pos 5)) no_weights two).0 ≡ none)
    ↔ Spent (key_with (pos 5)) no_weights two
select-none_iff_example = select-none_iff (key_with (pos 5)) no_weights two

rounds-rotation_example :
    Rotation.rounds {A = String} 3 (record { counter = 4 }) ("a" ∷ "b" ∷ "c" ∷ [])
    ≡ some "b" ∷ some "c" ∷ some "a" ∷ []
rounds-rotation_example =
    rounds-rotation (record { counter = 4 }) "a" ("b" ∷ "c" ∷ []) (omega arith)

minute_window_example : served (key_with (pos 5) 0) (7 ∷ 8 ∷ 9 ∷ []) ≤ 1
minute_window_example =
    minute_window (key_with (pos 5) 0) 7 (8 ∷ 9 ∷ []) (omega arith) (omega arith, (omega arith, tt))

run-IsValid_example : IsValid (run breaker (fails 5 ∷ succeeds ∷ fails 6 ∷ fails 7 ∷ []))
run-IsValid_example = run-IsValid (pos 2) (pos 1000) (fails 5 ∷ succeeds ∷ fails 6 ∷ fails 7 ∷ [])
