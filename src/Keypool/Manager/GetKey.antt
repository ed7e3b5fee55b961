-- ===== src/Keypool/Manager/GetKey.antt =====
-- What GetKey of internal/keypool/manager.go promises of the key that it returns, and of the others.
use mathlib.Core.Option.{some-injective}
use go_key_pool_system.Prelude.{
  ℕ, zero, suc, ◌+◌, ◌≡◌, ◌∙◌, refl, ap, sym, subst, inl, inr, Bool, true, false, Option, none,
  some, List, [], ◌∷◌, arith, ◌==◌, if◌then◌else◌, length, Option-cases,
}
use go_key_pool_system.Prelude.Int.{pos, ◌≤ℤ◌, ◌<ℤ◌}
use go_key_pool_system.Prelude.Members.{In}
use go_key_pool_system.Prelude.Store.{update}
use go_key_pool_system.Keypool.PoolKey.{PoolKey, reset_minute, reset_day}
use go_key_pool_system.Keypool.Manager.{
  Manager, allows, collect, select, try_select, remove_key, try_keys, get_key,
}
use go_key_pool_system.Keypool.Manager.Keys.{
  this_minute, this_day, IsAllowed, is_allowed, allows-Allows, try_key-Tries, remove_key-In,
  select-Selects,
}

-- The slots that a key has taken.
abbrev pub slots : Manager → ℕ → ℕ
slots m j = (m.store j).current_concurrent

-- One for the key that was returned.
abbrev pub taken : Option ℕ → ℕ → ℕ
taken none j = 0
taken (some k) j = if k == j then 1 else 0

record Collects (now : ℕ) (ks : List ℕ) (store : ℕ → PoolKey) (r : List ℕ × (ℕ → PoolKey)) (j : ℕ)
    : Type 0 where
  count : (r.1 j).current_concurrent ≡ (store j).current_concurrent
  limit : (r.1 j).concurrent_limit ≡ (store j).concurrent_limit
  keeps : IsAllowed (store j) → IsAllowed (r.1 j)
  member : In j r.0 → In j ks × IsAllowed (r.1 j)
  minute : this_minute now (r.1 j) ≡ this_minute now (store j)
  day : this_day now (r.1 j) ≡ this_day now (store j)

collect_member :
    (k : ℕ) (ks rest : List ℕ) (j : ℕ) (key : PoolKey) (b : Bool)
    → (b ≡ true → k ≡ j → IsAllowed key)
    → (In j rest → In j ks × IsAllowed key)
    → In j (if b then k ∷ rest else rest)
    → In j (k ∷ ks) × IsAllowed key
collect_member k ks rest j key true here there (inl e) = (inl e, here refl (sym e))
collect_member k ks rest j key true here there (inr m) = let (i, h) = there m in (inr i, h)
collect_member k ks rest j key false here there m = let (i, h) = there m in (inr i, h)

-- A key that is replaced by one that counts the same.
updated-same :
    (f : PoolKey → ℕ) (k j : ℕ) (store : ℕ → PoolKey) (key : PoolKey)
    → f key ≡ f (store k)
    → f (update store k key j) ≡ f (store j)
updated-same f k j store key e = ground (arith, e)

collect-Collects :
    (now : ℕ) (ks : List ℕ) (store : ℕ → PoolKey) (j : ℕ)
    → Collects now ks store (collect now store ks) j
unfolding collect reset_minute reset_day
collect-Collects now [] store j = record {
  count = refl;
  limit = refl;
  keeps = λ h. h;
  member = λ m. absurd m;
  minute = refl;
  day = refl;
}
collect-Collects now (k ∷ ks) store j =
    let a = allows-Allows now (store k) in
    let store' = update store k (allows now (store k)).1 in
    let rest = collect-Collects now ks store' j in
    record {
      count = ground (arith, a, rest);
      limit = ground (arith, a, rest);
      keeps = ground (arith, a, rest);
      member = collect_member k ks _ j _ _ (λ b e. rest.keeps (ground (arith, a))) rest.member;
      minute =
          rest.minute ∙ updated-same (this_minute now) k j store (allows now (store k)).1 a.minute;
      day = rest.day ∙ updated-same (this_day now) k j store (allows now (store k)).1 a.day;
    }

-- One round of the second loop: what it does to the key `j`.
record Round (now : ℕ) (m : Manager) (available : List ℕ) (r : Option ℕ × Bool × Manager) (j : ℕ)
    : Type 0 where
  keys : r.2.keys ≡ m.keys
  fresh : r.2.fresh ≡ m.fresh
  breaker : (r.2.store j).circuit_breaker ≡ (m.store j).circuit_breaker
  limit : (r.2.store j).concurrent_limit ≡ (m.store j).concurrent_limit
  count : slots r.2 j ≡ slots m j + (if r.1 then taken r.0 j else 0)
  member : r.0 ≡ some j → In j available
  room : r.0 ≡ some j → r.1 ≡ true → pos (slots m j) <ℤ (m.store j).concurrent_limit
  per_minute :
      r.0 ≡ some j
      → r.1 ≡ true
      → pos (r.2.store j).minute_counter ≤ℤ (r.2.store j).rate_limit_per_minute
  per_day :
      r.0 ≡ some j → r.1 ≡ true → pos (r.2.store j).day_counter ≤ℤ (r.2.store j).rate_limit_per_day
  counted_minute :
      r.0 ≡ some j → r.1 ≡ true → (r.2.store j).minute_counter ≡ this_minute now (m.store j) + 1
  counted_day : r.0 ≡ some j → r.1 ≡ true → (r.2.store j).day_counter ≡ this_day now (m.store j) + 1
  kept_minute : r.1 ≡ false → this_minute now (r.2.store j) ≡ this_minute now (m.store j)
  kept_day : r.1 ≡ false → this_day now (r.2.store j) ≡ this_day now (m.store j)

try_select-Round :
    (now : ℕ) (available : List ℕ) (m : Manager) (j : ℕ)
    → Round now m available (try_select now available m) j
unfolding try_select
try_select-Round now available m j =
    let s = select-Selects m available in
    elim (Option-cases (select m available).0) [
      | inl e ↦ rw (e, try_select) (ground (arith, s))
      | inr (k, e) ↦
          let t = try_key-Tries now ((select m available).1.store k) in
          let same : (select m available).1.store ≡ m.store = s.store in
          rw (e, try_select)
            (record {
              keys = s.keys;
              fresh = s.fresh;
              breaker = ground (arith, t, ap (λ f. f j) same);
              limit = ground (arith, t, ap (λ f. f j) same);
              count = ground (arith, t, ap (λ f. f j) same);
              member = λ h. subst (λ x. In x available) (some-injective k j h) (s.member k e);
              room = ground (arith, t, ap (λ f. f j) same);
              per_minute = ground (arith, t);
              per_day = ground (arith, t);
              counted_minute = ground (arith, t, ap (λ f. f j) same);
              counted_day = ground (arith, t, ap (λ f. f j) same);
              kept_minute = λ h.
                  updated-same (this_minute now) k j (select m available).1.store _
                    (t.kept_minute h)
                  ∙ ap (λ f. this_minute now (f j)) same;
              kept_day = λ h.
                  updated-same (this_day now) k j (select m available).1.store _ (t.kept_day h)
                  ∙ ap (λ f. this_day now (f j)) same;
            })
    ]

-- The whole second loop.
record Outcome (now : ℕ) (m : Manager) (available : List ℕ) (r : Option ℕ × Manager) (j : ℕ)
    : Type 0 where
  keys : r.1.keys ≡ m.keys
  fresh : r.1.fresh ≡ m.fresh
  breaker : (r.1.store j).circuit_breaker ≡ (m.store j).circuit_breaker
  count : slots r.1 j ≡ slots m j + taken r.0 j
  member : r.0 ≡ some j → In j available
  room : r.0 ≡ some j → pos (slots m j) <ℤ (m.store j).concurrent_limit
  per_minute :
      r.0 ≡ some j → pos (r.1.store j).minute_counter ≤ℤ (r.1.store j).rate_limit_per_minute
  per_day : r.0 ≡ some j → pos (r.1.store j).day_counter ≤ℤ (r.1.store j).rate_limit_per_day
  counted_minute : r.0 ≡ some j → (r.1.store j).minute_counter ≡ this_minute now (m.store j) + 1
  counted_day : r.0 ≡ some j → (r.1.store j).day_counter ≡ this_day now (m.store j) + 1

try_keys-Outcome :
    (now fuel attempts : ℕ) (available : List ℕ) (m : Manager) (j : ℕ)
    → Outcome now m available (try_keys now fuel attempts available m) j
unfolding try_keys
try_keys-Outcome now zero attempts available m j = ground arith
try_keys-Outcome now (suc fuel) attempts available m j =
    let t = try_select-Round now available m j in
    let m' = (try_select now available m).2 in
    elim (Option-cases (try_select now available m).0) [
      | inl e ↦ rw e (ground (arith, t))
      | inr (k, e) ↦
          let later = try_keys-Outcome now fuel (attempts + 1) (remove_key available k) m' j in
          let kept = remove_key-In available k j in rw e (ground (arith, t, later, kept))
    ]

-- GetKey counts one slot for the key that it returns, and leaves every other key's count alone; if
-- it returns none, no slot is kept.
pub get_key-slots :
    (now : ℕ) (m : Manager) (j : ℕ)
    → slots (get_key now m).1 j ≡ slots m j + taken (get_key now m).0 j
unfolding get_key
get_key-slots now m j =
    let c = collect now m.store m.keys in
    let m' = record m { store = c.1 } in
    ground
      (arith, collect-Collects now m.keys m.store j, try_keys-Outcome now (length c.0) 0 c.0 m' j)

-- A key that GetKey returns is in the pool, its breaker is not open, it was below its limit of slots,
-- and the request is counted: the requests of its minute and of its day are one more than before, and
-- within the limits.
pub get_key_sound :
    (now : ℕ) (m : Manager) (k : ℕ)
    → (get_key now m).0 ≡ some k
    → let key = (get_key now m).1.store k in
      In k m.keys
      × IsAllowed key
      × (pos (slots m k) <ℤ (m.store k).concurrent_limit)
      × (pos key.minute_counter ≤ℤ key.rate_limit_per_minute)
      × (pos key.day_counter ≤ℤ key.rate_limit_per_day)
      × (key.minute_counter ≡ this_minute now (m.store k) + 1)
      × (key.day_counter ≡ this_day now (m.store k) + 1)
unfolding get_key is_allowed
get_key_sound now m k h =
    let c = collect now m.store m.keys in
    let m' = record m { store = c.1 } in
    let found = collect-Collects now m.keys m.store k in
    let o = try_keys-Outcome now (length c.0) 0 c.0 m' k in
    let e : (try_keys now (length c.0) 0 c.0 m').0 ≡ some k = ground arith in
    let (member, allowed) = found.member (o.member e) in
    (
      member,
      ground (arith, allowed, o.breaker),
      ground (arith, found, o),
      ground (arith, o),
      ground (arith, o),
      ground (arith, o, found),
      ground (arith, o, found),
    )

-- What a round selects is one of the keys that are left.
pub try_select-In :
    (now : ℕ) (available : List ℕ) (m : Manager) (k : ℕ)
    → (try_select now available m).0 ≡ some k
    → In k available
try_select-In now available m k h = (try_select-Round now available m k).member h

-- GetKey adds no key to the pool and takes none out.
pub get_key-keys :
    (now : ℕ) (m : Manager)
    → ((get_key now m).1.keys ≡ m.keys) × ((get_key now m).1.fresh ≡ m.fresh)
unfolding get_key
get_key-keys now m =
    let c = collect now m.store m.keys in
    ground (arith, try_keys-Outcome now (length c.0) 0 c.0 (record m { store = c.1 }) 0)
