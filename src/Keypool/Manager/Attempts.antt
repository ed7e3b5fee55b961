-- ===== src/Keypool/Manager/Attempts.antt =====
-- How many keys GetKey of internal/keypool/manager.go tries.
use native.Mathlib.Nat.{zero-add, suc-add}
use go_key_pool_system.Prelude.{
  ℕ, zero, suc, ◌+◌, ◌≤◌, ◌≡◌, ◌≢◌, refl, inl, inr, false, none, List, [], ◌∷◌, arith, length,
  Option-cases,
}
use go_key_pool_system.Keypool.Manager.{Manager, collect, try_select, remove_key, try_keys, get_key}
use go_key_pool_system.Prelude.Members.{In}
use go_key_pool_system.Keypool.Manager.GetKey.{try_select-In}
use go_key_pool_system.Keypool.Manager.Keys.{length-remove_key}

-- The loop ends by its own test: with fuel for every key left, more fuel changes nothing.
pub try_keys_enough :
    (now fuel more attempts : ℕ) (available : List ℕ) (m : Manager)
    → length available ≤ attempts + fuel
    → try_keys now (fuel + more) attempts available m ≡ try_keys now fuel attempts available m
unfolding try_keys
try_keys_enough now zero zero attempts available m h = refl
try_keys_enough now zero (suc more) attempts available m h = rw zero-add (ground arith)
try_keys_enough now (suc fuel) more attempts available m h =
    elim (Option-cases (try_select now available m).0) [
      | inl e ↦ rw (suc-add, e) (ground arith)
      | inr (k, e) ↦
          let m' = (try_select now available m).2 in
          let rest = remove_key available k in
          rw (suc-add, e)
            (ground (
              arith,
              length-remove_key available k,
              try_keys_enough now fuel more (attempts + 1) rest m',
            ))
    ]

-- Of two keys one is left.
length-remove_key_two :
    (a b k : ℕ) → a ≢ b → In k (a ∷ b ∷ []) → length (remove_key (a ∷ b ∷ []) k) ≡ 1
unfolding remove_key
length-remove_key_two a b k ne (inl e) = ground arith
length-remove_key_two a b k ne (inr (inl e)) = ground arith
length-remove_key_two a b k ne (inr (inr e)) = absurd e

two_keys_one_round :
    (now : ℕ) (m : Manager) (a b : ℕ)
    → a ≢ b
    → (try_select now (a ∷ b ∷ []) m).1 ≡ false
    → (try_keys now 2 0 (a ∷ b ∷ []) m).0 ≡ none
unfolding try_keys
two_keys_one_round now m a b ne h = elim (Option-cases (try_select now (a ∷ b ∷ []) m).0) [
  | inl e ↦ rw e refl
  | inr (k, e) ↦
      let left = length-remove_key_two a b k ne (try_select-In now _ m k e) in
      rw (e, h) (rw left (ground (arith, left)))
]

-- With two keys in reach GetKey tries one: where that one cannot be acquired, it returns none,
-- whatever the other key could take.
pub two_keys_one_try :
    (now : ℕ) (m : Manager) (a b : ℕ)
    → a ≢ b
    → (collect now m.store m.keys).0 ≡ a ∷ b ∷ []
    → (try_select now (a ∷ b ∷ []) (record m { store = (collect now m.store m.keys).1 })).1 ≡ false
    → (get_key now m).0 ≡ none
unfolding get_key
two_keys_one_try now m a b ne e h = rw e (two_keys_one_round now _ a b ne h)
