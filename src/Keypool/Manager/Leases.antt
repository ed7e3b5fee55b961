-- ===== src/Keypool/Manager/Leases.antt =====
-- The manager of internal/keypool/manager.go under all its callers: workers that hold the keys they
-- were given, the reload loop, and the hot configuration. GetKey holds the read lock of the manager
-- only, so that other calls come between its parts: a step is what runs under one mutex of a breaker,
-- a strategy or a key. MarkSuccess and MarkFailed change the pool in one such call each. A reload is
-- not kept from coming between the parts of GetKey here, though the write lock that it takes does.
use go_key_pool_system.Prelude.{ℕ, ◌≡◌, true, false, Option, List, ◌∷◌}
use go_key_pool_system.Prelude.Members.{In}
use go_key_pool_system.Db.Adapter.{ApiKey}
use go_key_pool_system.Config.HotReload.{HotReloadConfig}
use go_key_pool_system.Keypool.PoolKey.{try_concurrent_acquire, try_rate_limit}
use go_key_pool_system.Keypool.Manager.{allows, select, get_key, release_key}
use go_key_pool_system.Keypool.Marks.{mark_success, mark_failed}
use go_key_pool_system.Keypool.Loading.{reload_keys, update_strategy}
use go_key_pool_system.Keypool.Manager.Holding.{
  System, put, end_lease, begin_lease, Accounted, Marks-Accounted, get_key-Accounted,
  release_key-Accounted, mark_success-Marks, mark_failed-Marks, reload_keys-Accounted,
  update_strategy-Marks,
}
use go_key_pool_system.Keypool.Manager.Parts.{
  acquires-Accounted, asks-Marks, passes-Accounted, exceeds-Accounted, gives_back-Accounted,
  looks-Marks, selects-Marks,
}

module _ (F : Type 0) where
  -- The first six are the parts of GetKey: AllowRequest, Select, TryConcurrentAcquire, TryRateLimit
  -- with its two results, and ConcurrentRelease. `gets` is a call that nothing comes between.
  pub data Step (s : System) : System → Type 0 where
    looks :
        (now k : ℕ)
        → Step s (record s { manager = put k (allows now (s.manager.store k)).1 s.manager })
    selects : (available : List ℕ) → Step s (record s { manager = (select s.manager available).1 })
    acquires :
        (k : ℕ)
        → In k s.manager.keys
        → (try_concurrent_acquire (s.manager.store k)).0 ≡ true
        → Step s (record s {
          manager = put k (try_concurrent_acquire (s.manager.store k)).1 s.manager;
          trying = k ∷ s.trying;
        })
    passes :
        (now k : ℕ)
        → In k s.trying
        → (try_rate_limit now (s.manager.store k)).0 ≡ true
        → Step s (record s {
          manager = put k (try_rate_limit now (s.manager.store k)).1 s.manager;
          trying = end_lease k s.trying;
          leases = k ∷ s.leases;
        })
    exceeds :
        (now k : ℕ)
        → In k s.trying
        → (try_rate_limit now (s.manager.store k)).0 ≡ false
        → Step s (record s {
          manager = put k (try_rate_limit now (s.manager.store k)).1 s.manager;
          trying = end_lease k s.trying;
          over = k ∷ s.over;
        })
    gives_back :
        (k : ℕ)
        → In k s.over
        → Step s (record s { manager = release_key k s.manager; over = end_lease k s.over })
    gets :
        (now : ℕ)
        → Step s (record s {
          manager = (get_key now s.manager).1;
          leases = begin_lease (get_key now s.manager).0 s.leases;
        })
    releases :
        (k : ℕ)
        → In k s.leases
        → Step s (record s { manager = release_key k s.manager; leases = end_lease k s.leases })
    succeeds : (k : ℕ) → Step s (record s { manager = (mark_success k s.manager).0 })
    fails : (now k : ℕ) → Step s (record s { manager = (mark_failed now k s.manager).0 })
    reloads :
        (cfg : HotReloadConfig F) (rows : Option (List ApiKey))
        → Step s (record s { manager = (reload_keys cfg rows s.manager).1 })
    switches :
        (cfg : HotReloadConfig F) → Step s (record s { manager = update_strategy cfg s.manager })

  Step-Accounted : {s t : System} → Step s t → Accounted s → Accounted t
  Step-Accounted {s} (looks now k) a = Marks-Accounted s _ (looks-Marks now k s.manager) a
  Step-Accounted {s} (selects available) a =
      Marks-Accounted s _ (selects-Marks available s.manager) a
  Step-Accounted {s} (acquires k inside e) a = acquires-Accounted k s inside e a
  Step-Accounted {s} (passes now k m e) a =
      passes-Accounted k _ m (Marks-Accounted s _ (asks-Marks now k s.manager) a)
  Step-Accounted {s} (exceeds now k m e) a =
      exceeds-Accounted k _ m (Marks-Accounted s _ (asks-Marks now k s.manager) a)
  Step-Accounted {s} (gives_back k m) a = gives_back-Accounted k s m a
  Step-Accounted {s} (gets now) a = get_key-Accounted now s a
  Step-Accounted {s} (releases k m) a = release_key-Accounted k s m a
  Step-Accounted {s} (succeeds k) a = Marks-Accounted s _ (mark_success-Marks k s.manager) a
  Step-Accounted {s} (fails now k) a = Marks-Accounted s _ (mark_failed-Marks now k s.manager) a
  Step-Accounted {s} (reloads cfg rows) a = reload_keys-Accounted cfg rows s a
  Step-Accounted {s} (switches cfg) a = Marks-Accounted s _ (update_strategy-Marks cfg s.manager) a

  pub data Reach (s : System) : System → Type 0 where
    here : Reach s s
    next : {t u : System} → Reach s t → Step t u → Reach s u

  -- From a system whose keys are accounted for, whatever the workers and the reloads do and in
  -- whatever order, also between the parts of GetKey, each key counts as many slots as it has leases
  -- and slots in the hands of calls of GetKey, which are to lease the key or to give the slot back.
  pub Reach-Accounted : {s t : System} → Accounted s → Reach s t → Accounted t
  Reach-Accounted a here = a
  Reach-Accounted a (next r st) = Step-Accounted st (Reach-Accounted a r)
