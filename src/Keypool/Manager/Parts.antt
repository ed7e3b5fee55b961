-- ===== src/Keypool/Manager/Parts.antt =====
-- The parts of GetKey in internal/keypool/manager.go, and the slots that they take, pass on and give
-- back.
use go_key_pool_system.Prelude.{ℕ, ◌+◌, ◌≡◌, refl, ap, true, List, ◌∷◌, arith, if◌then◌else◌, ◌==◌}
use go_key_pool_system.Prelude.Members.{In, All-In}
use go_key_pool_system.Keypool.PoolKey.{PoolKey, try_concurrent_acquire, try_rate_limit}
use go_key_pool_system.Keypool.Manager.{Manager, allows, select, release_key}
use go_key_pool_system.Keypool.Manager.Keys.{allows-Allows, try_rate_limit-Rates, select-Selects}
use go_key_pool_system.Keypool.Manager.GetKey.{slots}
use go_key_pool_system.Keypool.Manager.Holding.{
  put, System, Accounted, Marks, count, end_lease, count-end_lease, end_lease-All, release_key-keys,
  release_key-slots,
}

-- A key that is put back with other slots.
put-slots :
    (k j : ℕ) (key : PoolKey) (m : Manager)
    → slots (put k key m) j ≡ (if k == j then key.current_concurrent else slots m j)
put-slots k j key m = ground arith

acquired :
    (key : PoolKey)
    → (try_concurrent_acquire key).0 ≡ true
    → (try_concurrent_acquire key).1.current_concurrent ≡ key.current_concurrent + 1
unfolding try_concurrent_acquire
acquired key h = ground (arith, h)

rated-slots :
    (now : ℕ) (key : PoolKey)
    → (try_rate_limit now key).1.current_concurrent ≡ key.current_concurrent
rated-slots now key = (try_rate_limit-Rates now key).slots

pub acquires-Accounted :
    (k : ℕ) (s : System)
    → In k s.manager.keys
    → (try_concurrent_acquire (s.manager.store k)).0 ≡ true
    → Accounted s
    → Accounted (record s {
      manager = put k (try_concurrent_acquire (s.manager.store k)).1 s.manager;
      trying = k ∷ s.trying;
    })
unfolding count
acquires-Accounted k s inside e a = record {
  allocated = a.allocated;
  held = a.held;
  tried = (All-In _ s.manager.keys k a.allocated inside, a.tried);
  given_back = a.given_back;
  balanced = λ j l. ground (arith, acquired (s.manager.store k) e, a.balanced j l);
}

-- The rate limit, which leaves the slots: the key is leased, or is to be given back.
pub asks-Marks : (now k : ℕ) (m : Manager) → Marks m (put k (try_rate_limit now (m.store k)).1 m)
asks-Marks now k m = record {
  keys = refl;
  fresh = refl;
  same = λ j. ground (arith, rated-slots now (m.store k));
}

pub passes-Accounted :
    (k : ℕ) (s : System)
    → In k s.trying
    → Accounted s
    → Accounted (record s { trying = end_lease k s.trying; leases = k ∷ s.leases })
unfolding count
passes-Accounted k s m a = record {
  allocated = a.allocated;
  held = (All-In _ s.trying k a.tried m, a.held);
  tried = end_lease-All s.manager.fresh k s.trying a.tried;
  given_back = a.given_back;
  balanced = λ j l. omega (arith, count-end_lease j k s.trying m, a.balanced j l);
}

pub exceeds-Accounted :
    (k : ℕ) (s : System)
    → In k s.trying
    → Accounted s
    → Accounted (record s { trying = end_lease k s.trying; over = k ∷ s.over })
unfolding count
exceeds-Accounted k s m a = record {
  allocated = a.allocated;
  held = a.held;
  tried = end_lease-All s.manager.fresh k s.trying a.tried;
  given_back = (All-In _ s.trying k a.tried m, a.given_back);
  balanced = λ j l. omega (arith, count-end_lease j k s.trying m, a.balanced j l);
}

pub gives_back-Accounted :
    (k : ℕ) (s : System)
    → In k s.over
    → Accounted s
    → Accounted (record s { manager = release_key k s.manager; over = end_lease k s.over })
gives_back-Accounted k s m a =
    let (keys, fresh) = release_key-keys k s.manager in
    record {
      allocated = rw (keys, fresh) a.allocated;
      held = rw fresh a.held;
      tried = rw fresh a.tried;
      given_back = rw fresh (end_lease-All s.manager.fresh k s.over a.given_back);
      balanced = λ j l. omega (
        arith,
        release_key-slots k s.manager j,
        count-end_lease j k s.over m,
        a.balanced j (omega (arith, fresh)),
      );
    }

pub looks-Marks : (now k : ℕ) (m : Manager) → Marks m (put k (allows now (m.store k)).1 m)
looks-Marks now k m = record {
  keys = refl;
  fresh = refl;
  same = λ j. ground (arith, (allows-Allows now (m.store k)).slots);
}

pub selects-Marks : (available : List ℕ) (m : Manager) → Marks m (select m available).1
selects-Marks available m =
    let e = select-Selects m available in
    record {
      keys = e.keys;
      fresh = e.fresh;
      same = λ j. ap (λ f. (f j).current_concurrent) e.store;
    }
