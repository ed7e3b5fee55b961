-- ===== src/Keypool/Manager/Holding.antt =====
-- The slots of the keys in the manager of internal/keypool/manager.go, and who holds them: workers, and
-- calls of GetKey.
use go_key_pool_system.Prelude.{
  ℕ, ◌+◌, ◌-◌, ◌≤◌, ◌<◌, ◌≡◌, refl, ◌∙◌, inl, inr, Option, none, some, List, [], ◌∷◌, arith,
  if◌then◌else◌, ◌==◌, dec_lt,
}
use go_key_pool_system.Prelude.Members.{All, In, All-In, All-map}
use go_key_pool_system.Db.Adapter.{ApiKey}
use go_key_pool_system.Config.HotReload.{HotReloadConfig}
use go_key_pool_system.Keypool.PoolKey.{PoolKey, concurrent_release}
use go_key_pool_system.Prelude.Store.{update}
use go_key_pool_system.Keypool.Manager.{Manager, get_key, release_key}
use go_key_pool_system.Keypool.Marks.{mark_success, mark_failed}
use go_key_pool_system.Keypool.Loading.{reload_keys, update_strategy}
use go_key_pool_system.Keypool.Manager.GetKey.{
  slots, taken, get_key-slots, get_key_sound, get_key-keys,
}
use go_key_pool_system.Keypool.Manager.Marking.{mark_failed-slots, mark_success-slots}
use go_key_pool_system.Keypool.Manager.Reload.{IsAllocated, reload_keys-Extends}

-- The manager, the keys that workers hold, once for each time they were given one, the keys that calls
-- of GetKey have a slot of and have not asked for the rate limit, and those that they have a slot of
-- and are to give back.
pub record System : Type 0 where
  pub manager : Manager
  pub leases : List ℕ
  pub trying : List ℕ
  pub over : List ℕ

abbrev pub put : ℕ → PoolKey → Manager → Manager
put k key m = record m { store = update m.store k key }

-- How often the key `j` is held.
unfoldable pub count : ℕ → List ℕ → ℕ
count j [] = 0
count j (k ∷ ks) = (if k == j then 1 else 0) + count j ks

-- One lease of the key `k` ends.
pub end_lease : ℕ → List ℕ → List ℕ
end_lease k [] = []
end_lease k (j ∷ ks) = let rest = end_lease k ks in if k == j then ks else j ∷ rest

abbrev pub begin_lease : Option ℕ → List ℕ → List ℕ
begin_lease none ks = ks
begin_lease (some k) ks = k ∷ ks

pub count-end_lease :
    (j k : ℕ) (ks : List ℕ)
    → In k ks
    → count j ks ≡ count j (end_lease k ks) + (if k == j then 1 else 0)
unfolding count end_lease
count-end_lease j k [] m = absurd m
count-end_lease j k (i ∷ ks) (inl e) = ground arith
count-end_lease j k (i ∷ ks) (inr m) = ground (arith, count-end_lease j k ks m)

pub end_lease-All :
    (n k : ℕ) (ks : List ℕ) → All (λ i. i < n) ks → All (λ i. i < n) (end_lease k ks)
unfolding end_lease
end_lease-All n k [] h = tt
end_lease-All n k (i ∷ ks) h = ground (arith, end_lease-All n k ks h.1)

pub release_key-slots :
    (k : ℕ) (m : Manager) (j : ℕ)
    → slots (release_key k m) j ≡ slots m j - (if k == j then 1 else 0)
unfolding release_key concurrent_release
release_key-slots k m j = ground arith

pub release_key-keys :
    (k : ℕ) (m : Manager) → ((release_key k m).keys ≡ m.keys) × ((release_key k m).fresh ≡ m.fresh)
unfolding release_key
release_key-keys k m = (refl, refl)

-- A key counts as many slots as it has leases, and slots in the hands of GetKey; and every key in the
-- pool or held is in use.
pub record Accounted (s : System) : Type 0 where
  pub allocated : IsAllocated s.manager
  pub held : All (λ k. k < s.manager.fresh) s.leases
  pub tried : All (λ k. k < s.manager.fresh) s.trying
  pub given_back : All (λ k. k < s.manager.fresh) s.over
  pub balanced :
      (j : ℕ)
      → j < s.manager.fresh
      → slots s.manager j ≡ count j s.leases + count j s.trying + count j s.over

pub record Marks (m m' : Manager) : Type 0 where
  pub keys : m'.keys ≡ m.keys
  pub fresh : m'.fresh ≡ m.fresh
  pub same : (j : ℕ) → slots m' j ≡ slots m j

pub Marks-Accounted :
    (s : System) (m : Manager)
    → Marks s.manager m
    → Accounted s
    → Accounted (record s { manager = m })
Marks-Accounted s m k a = record {
  allocated = rw (k.keys, k.fresh) a.allocated;
  held = rw k.fresh a.held;
  tried = rw k.fresh a.tried;
  given_back = rw k.fresh a.given_back;
  balanced = λ j l. k.same j ∙ a.balanced j (omega (arith, k.fresh));
}

begin_lease-All :
    (n : ℕ) (o : Option ℕ) (ls : List ℕ)
    → ((k : ℕ) → o ≡ some k → k < n)
    → All (λ i. i < n) ls
    → All (λ i. i < n) (begin_lease o ls)
begin_lease-All n none ls h a = a
begin_lease-All n (some k) ls h a = (h k refl, a)

count-begin_lease :
    (j : ℕ) (o : Option ℕ) (ls : List ℕ) → count j (begin_lease o ls) ≡ count j ls + taken o j
unfolding count
count-begin_lease j none ls = omega arith
count-begin_lease j (some k) ls = omega arith

pub get_key-Accounted :
    (now : ℕ) (s : System)
    → Accounted s
    → Accounted (record s {
      manager = (get_key now s.manager).1;
      leases = begin_lease (get_key now s.manager).0 s.leases;
    })
get_key-Accounted now s a =
    let (keys, fresh) = get_key-keys now s.manager in
    record {
      allocated = rw (keys, fresh) a.allocated;
      held = rw fresh (
          begin_lease-All _ _ s.leases
            (λ k e. All-In _ s.manager.keys k a.allocated (get_key_sound now s.manager k e).0)
            a.held);
      tried = rw fresh a.tried;
      given_back = rw fresh a.given_back;
      balanced = λ j l. omega (
        arith,
        get_key-slots now s.manager j,
        count-begin_lease j (get_key now s.manager).0 s.leases,
        a.balanced j (omega (arith, fresh)),
      );
    }

pub release_key-Accounted :
    (k : ℕ) (s : System)
    → In k s.leases
    → Accounted s
    → Accounted (record s { manager = release_key k s.manager; leases = end_lease k s.leases })
release_key-Accounted k s m a =
    let (keys, fresh) = release_key-keys k s.manager in
    record {
      allocated = rw (keys, fresh) a.allocated;
      held = rw fresh (end_lease-All s.manager.fresh k s.leases a.held);
      tried = rw fresh a.tried;
      given_back = rw fresh a.given_back;
      balanced = λ j l. omega (
        arith,
        release_key-slots k s.manager j,
        count-end_lease j k s.leases m,
        a.balanced j (omega (arith, fresh)),
      );
    }

count_above : (j n : ℕ) (ks : List ℕ) → n ≤ j → All (λ k. k < n) ks → count j ks ≡ 0
unfolding count
count_above j n [] h a = refl
count_above j n (k ∷ ks) h a = ground (arith, count_above j n ks h a.1)

pub mark_success-Marks : (k : ℕ) (m : Manager) → Marks m (mark_success k m).0
unfolding mark_success
mark_success-Marks k m = ground (arith, mark_success-slots k m)

pub mark_failed-Marks : (now k : ℕ) (m : Manager) → Marks m (mark_failed now k m).0
unfolding mark_failed
mark_failed-Marks now k m = ground (arith, mark_failed-slots now k m)

module _ {F : Type 0} (cfg : HotReloadConfig F) where
  pub reload_keys-Accounted :
      (rows : Option (List ApiKey)) (s : System)
      → Accounted s
      → Accounted (record s { manager = (reload_keys cfg rows s.manager).1 })
  reload_keys-Accounted rows s a =
      let e = reload_keys-Extends cfg rows s.manager a.allocated in
      record {
        allocated = e.allocated;
        held = All-map s.leases (λ k l. omega (arith, e.grows)) a.held;
        tried = All-map s.trying (λ k l. omega (arith, e.grows)) a.tried;
        given_back = All-map s.over (λ k l. omega (arith, e.grows)) a.given_back;
        balanced = λ j l. elim (dec_lt j s.manager.fresh) [
          | yes p ↦ e.keeps j p ∙ a.balanced j p
          | no p ↦
              e.clean j (omega arith) l
              ∙ omega (
                arith,
                count_above j s.manager.fresh s.leases (omega arith) a.held,
                count_above j s.manager.fresh s.trying (omega arith) a.tried,
                count_above j s.manager.fresh s.over (omega arith) a.given_back,
              )
        ];
      }

  pub update_strategy-Marks : (m : Manager) → Marks m (update_strategy cfg m)
  unfolding update_strategy
  update_strategy-Marks m = ground arith
