-- ===== src/Keypool/Manager/Reload.antt =====
-- reloadKeys of internal/keypool/manager.go.
use go_key_pool_system.Prelude.{
  ℕ, ◌≤◌, ◌<◌, ◌≡◌, refl, sym, subst, ap, ◌∙◌, inl, inr, String, Option, none, some, List, [], ◌∷◌,
  map, arith, Option-cases, dec_lt, str_eq, eq_iff, Bool-cases,
}
use go_key_pool_system.Prelude.Members.{All, In, All-In}
use go_key_pool_system.Db.Adapter.{ApiKey}
use go_key_pool_system.Config.HotReload.{HotReloadConfig}
use go_key_pool_system.Keypool.PoolKey.{PoolKey}
use go_key_pool_system.Keypool.Manager.{Manager}
use go_key_pool_system.Keypool.Loading.{existing, load, reload_loop, reload_keys}

-- The key `k` stands for its ID in the pool, which no other key of it has.
pub record StandsAlone (m : Manager) (k : ℕ) : Type 0 where
  pub inside : In k m.keys
  pub alone : (j : ℕ) → In j m.keys → (m.store j).id ≡ (m.store k).id → j ≡ k

-- What a reload keeps of a key: its ID and its runtime state.
pub record Keeps (k k' : PoolKey) : Type 0 where
  pub id : k'.id ≡ k.id
  pub slots : k'.current_concurrent ≡ k.current_concurrent
  pub minute : k'.minute_counter ≡ k.minute_counter
  pub day : k'.day_counter ≡ k.day_counter
  pub minute_end : k'.minute_reset_at ≡ k.minute_reset_at
  pub day_end : k'.day_reset_at ≡ k.day_reset_at
  pub breaker : k'.circuit_breaker ≡ k.circuit_breaker

Keeps-trans : (k k' k'' : PoolKey) → Keeps k k' → Keeps k' k'' → Keeps k k''
Keeps-trans k k' k'' a b = record {
  id = b.id ∙ a.id;
  slots = b.slots ∙ a.slots;
  minute = b.minute ∙ a.minute;
  day = b.day ∙ a.day;
  minute_end = b.minute_end ∙ a.minute_end;
  day_end = b.day_end ∙ a.day_end;
  breaker = b.breaker ∙ a.breaker;
}

-- Every key of the pool has an address that is in use.
abbrev pub IsAllocated : Manager → Type 0
IsAllocated m = All (λ k. k < m.fresh) m.keys

existing-In :
    (store : ℕ → PoolKey) (id : String) (ks : List ℕ) (k : ℕ)
    → existing store id ks ≡ some k
    → In k ks × ((store k).id ≡ id)
unfolding existing
existing-In store id [] k e = cc
existing-In store id (j ∷ ks) k e = elim (Option-cases (existing store id ks)) [
  | inl gone ↦ elim (Bool-cases (str_eq (store j).id id)) [
    | inl hit ↦ let same : k ≡ j = ground arith in (inl same, rw same ((eq_iff _ _).0 hit))
    | inr miss ↦ absurd (ground arith)
  ]
  | inr (i, found) ↦
      let same : i ≡ k = ground arith in
      let (m, named) = existing-In store id ks k (found ∙ ap some same) in (inr m, named)
]

existing-found :
    (store : ℕ → PoolKey) (id : String) (ks : List ℕ) (k : ℕ)
    → In k ks
    → (store k).id ≡ id
    → (i : ℕ) × (existing store id ks ≡ some i)
unfolding existing
existing-found store id [] k m named = absurd m
existing-found store id (j ∷ ks) k m named = elim (Option-cases (existing store id ks)) [
  | inr (i, found) ↦ (i, rw found refl)
  | inl gone ↦ elim m [
    | inl here ↦
        let hit = (eq_iff (store j).id id).1 (ap (λ i. (store i).id) (sym here) ∙ named) in
        (j, rw (gone, hit) refl)
    | inr later ↦
        let (i, found) = existing-found store id ks k later named in absurd (cc (gone, found))
  ]
]

module _ {F : Type 0} (cfg : HotReloadConfig F) where
  -- The map answers with keys in use, of the ID that was asked for.
  abbrev Answers : (String → Option ℕ) → (ℕ → PoolKey) → ℕ → Type 0
  Answers find store fresh =
      (id : String) (k : ℕ) → find id ≡ some k → (k < fresh) × ((store k).id ≡ id)

  record Loaded (db_key : ApiKey) (store : ℕ → PoolKey) (fresh : ℕ) (r : ℕ × (ℕ → PoolKey) × ℕ)
      : Type 0 where
    place : r.0 < r.2
    grows : fresh ≤ r.2
    named : (r.1 r.0).id ≡ db_key.id
    keeps : (j : ℕ) → j < fresh → Keeps (store j) (r.1 j)
    clean : (j : ℕ) → fresh ≤ j → j < r.2 → (r.1 j).current_concurrent ≡ 0

  load-Loaded :
      (db_key : ApiKey) (found : Option ℕ) (store : ℕ → PoolKey) (fresh : ℕ)
      → ((k : ℕ) → found ≡ some k → (k < fresh) × ((store k).id ≡ db_key.id))
      → Loaded db_key store fresh (load cfg db_key found store fresh)
  unfolding load
  load-Loaded db_key none store fresh h = record {
    place = omega arith;
    grows = omega arith;
    named = ground arith;
    keeps = λ j l. ground arith;
    clean = λ j l h. ground arith;
  }
  load-Loaded db_key (some k) store fresh h =
      let (used, named) = h k refl in
      record {
        place = used;
        grows = omega arith;
        named = ground arith;
        keeps = λ j l. ground arith;
        clean = λ j l h. absurd (omega arith);
      }

  record Reloaded (db_keys : List ApiKey) (store : ℕ → PoolKey) (fresh : ℕ)
      (r : List ℕ × (ℕ → PoolKey) × ℕ) : Type 0 where
    places : All (λ k. k < r.2) r.0
    grows : fresh ≤ r.2
    named : map (λ k. (r.1 k).id) r.0 ≡ map (λ d. d.id) db_keys
    keeps : (j : ℕ) → j < fresh → Keeps (store j) (r.1 j)
    clean : (j : ℕ) → fresh ≤ j → j < r.2 → (r.1 j).current_concurrent ≡ 0

  reload_loop-Reloaded :
      (find : String → Option ℕ) (db_keys : List ApiKey) (store : ℕ → PoolKey) (fresh : ℕ)
      → Answers find store fresh
      → Reloaded db_keys store fresh (reload_loop cfg find db_keys store fresh)
  unfolding reload_loop
  reload_loop-Reloaded find [] store fresh h = record {
    places = tt;
    grows = omega arith;
    named = refl;
    keeps = λ j l. ground arith;
    clean = λ j l h. absurd (omega arith);
  }
  reload_loop-Reloaded find (d ∷ ds) store fresh h =
      let r = load cfg d (find d.id) store fresh in
      let first = load-Loaded d (find d.id) store fresh (h d.id) in
      let later = reload_loop-Reloaded find ds r.1 r.2 (λ id k e.
        let (used, named) = h id k e in
        (omega (arith, first.grows), (first.keeps k used).id ∙ named)) in
      record {
        places = (omega (arith, first.place, later.grows), later.places);
        grows = omega (arith, first.grows, later.grows);
        named = λ i. ((later.keeps r.0 first.place).id ∙ first.named) i ∷ later.named i;
        keeps =
            λ j l. Keeps-trans _ _ _ (first.keeps j l) (later.keeps j (omega (arith, first.grows)));
        clean = λ j l h. elim (dec_lt j r.2) [
          | yes p ↦ (later.keeps j p).slots ∙ first.clean j l p
          | no p ↦ later.clean j (omega arith) h
        ];
      }

  rows-Reloaded :
      (db_keys : List ApiKey) (m : Manager)
      → IsAllocated m
      → Reloaded db_keys m.store m.fresh
          (reload_loop cfg (λ id. existing m.store id m.keys) db_keys m.store m.fresh)
  rows-Reloaded db_keys m a =
      reload_loop-Reloaded (λ id. existing m.store id m.keys) db_keys m.store m.fresh
        (λ id k e.
          let (i, named) = existing-In m.store id m.keys k e in (All-In _ m.keys k a i, named))

  -- What else a reload does to the addresses, also when it fails.
  pub record Extends (m m' : Manager) : Type 0 where
    pub allocated : IsAllocated m'
    pub grows : m.fresh ≤ m'.fresh
    pub keeps :
        (j : ℕ) → j < m.fresh → (m'.store j).current_concurrent ≡ (m.store j).current_concurrent
    pub clean : (j : ℕ) → m.fresh ≤ j → j < m'.fresh → (m'.store j).current_concurrent ≡ 0

  pub reload_keys-Extends :
      (rows : Option (List ApiKey)) (m : Manager)
      → IsAllocated m
      → Extends m (reload_keys cfg rows m).1
  unfolding reload_keys
  reload_keys-Extends none m a = record {
    allocated = a;
    grows = omega arith;
    keeps = λ j l. refl;
    clean = λ j l h. absurd (omega arith);
  }
  reload_keys-Extends (some db_keys) m a =
      let r = rows-Reloaded db_keys m a in
      record {
        allocated = r.places;
        grows = r.grows;
        keeps = λ j l. (r.keeps j l).slots;
        clean = r.clean;
      }

  -- The keys of the pool are those of the rows, in their order.
  pub reload_keys-named :
      (db_keys : List ApiKey) (m : Manager)
      → IsAllocated m
      → let m' = (reload_keys cfg (some db_keys) m).1 in
        map (λ k. (m'.store k).id) m'.keys ≡ map (λ d. d.id) db_keys
  unfolding reload_keys
  reload_keys-named db_keys m a = (rows-Reloaded db_keys m a).named

  -- The loop takes the key that the map has for the ID of a row.
  reload_loop-reuses :
      (find : String → Option ℕ) (db_keys : List ApiKey) (store : ℕ → PoolKey) (fresh : ℕ)
      (d : ApiKey) (k : ℕ)
      → In d db_keys
      → find d.id ≡ some k
      → In k (reload_loop cfg find db_keys store fresh).0
  unfolding reload_loop load
  reload_loop-reuses find [] store fresh d k m e = absurd m
  reload_loop-reuses find (first ∷ ds) store fresh d k (inl same) e =
      let found : find first.id ≡ some k = subst (λ (r : ApiKey). find r.id ≡ some k) same e in
      inl (rw found refl)
  reload_loop-reuses find (first ∷ ds) store fresh d k (inr m) e =
      inr (reload_loop-reuses find ds _ _ d k m e)

  -- After a reload that reads the rows `db_keys` the pool has one key for each row, in their order.
  -- A key of the pool whose ID a row has, and no other key of the pool, is in the pool again, the
  -- same object, with its runtime state: its slots, counters and windows, and its whole breaker,
  -- whatever the configuration says.
  pub reload_keys-Keeps :
      (db_keys : List ApiKey) (m : Manager) (k : ℕ) (row : ApiKey)
      → IsAllocated m
      → StandsAlone m k
      → In row db_keys
      → (m.store k).id ≡ row.id
      → let m' = (reload_keys cfg (some db_keys) m).1 in
        (map (λ k. (m'.store k).id) m'.keys ≡ map (λ d. d.id) db_keys)
        × IsAllocated m'
        × In k m'.keys
        × Keeps (m.store k) (m'.store k)
  unfolding reload_keys
  reload_keys-Keeps db_keys m k row a s listed named =
      let r = rows-Reloaded db_keys m a in
      let (i, e) = existing-found m.store row.id m.keys k s.inside named in
      let (there, same) = existing-In m.store row.id m.keys i e in
      let found = e ∙ ap some (s.alone i there (same ∙ sym named)) in
      (
        r.named,
        r.places,
        reload_loop-reuses (λ id. existing m.store id m.keys) db_keys m.store m.fresh row k listed
            found,
        r.keeps k (All-In _ m.keys k a s.inside),
      )
