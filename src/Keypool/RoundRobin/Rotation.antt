-- ===== src/Keypool/RoundRobin/Rotation.antt =====
-- The rotation of internal/keypool/roundrobin.go.
use go_key_pool_system.Prelude.{
  ℕ, zero, suc, ◌+◌, ◌-◌, ◌%◌, ◌^◌, ◌≤◌, ◌<◌, ◌≡◌, refl, ap, sym, ◌∙◌, List, [], ◌∷◌, ◌++◌, map,
  Option, some, arith, length, length-drop, get_elem?, drop, take,
}
use mathlib.Core.Path.{◌≡⟨◌⟩◌, ◌∎}
use mathlib.Core.List.{map-append}
use native.Mathlib.Nat.{
  zero-add, add-zero, suc-add, add-suc, mod-add-mod, mod-eq_of_lt, mod-lt, mod-mod, mod_self,
}
use go_key_pool_system.Keypool.RoundRobin.{RoundRobin, select, uint64}

module _ {ℓ} {A : Type ℓ} where
  -- The results of `n` calls of Select in a row on the same list.
  unfoldable pub rounds : ℕ → RoundRobin → List A → List (Option A)
  rounds zero r ks = []
  rounds (suc n) r ks = let (k, r') = select r ks in k ∷ rounds n r' ks

  -- The keys from place `i` on, `n` of them, wrapping round at the end.
  cycle : ℕ → ℕ → List A → List (Option A)
  cycle zero i ks = []
  cycle (suc n) i ks = get_elem? ks (i % length ks) ∷ cycle n (suc i) ks

  rounds-cycle :
      (n c : ℕ) (k : A) (ks : List A)
      → c + n < 2 ^ 64
      → rounds n (record { counter = c }) (k ∷ ks) ≡ cycle n c (k ∷ ks)
  unfolding rounds cycle select
  rounds-cycle zero c k ks h = refl
  rounds-cycle (suc n) c k ks h =
      let next : uint64 (c + 1) ≡ suc c = omega arith in
      rw (next, rounds-cycle n (suc c) k ks (omega arith))

  cycle-append : (m n i : ℕ) (ks : List A) → cycle (m + n) i ks ≡ cycle m i ks ++ cycle n (i + m) ks
  unfolding cycle
  cycle-append zero n i ks = rw (zero-add, add-zero)
  cycle-append (suc m) n i ks = rw (suc-add, add-suc, cycle-append m n (suc i) ks, suc-add)

  cycle-mod :
      (n i j : ℕ) (ks : List A) → i % length ks ≡ j % length ks → cycle n i ks ≡ cycle n j ks
  unfolding cycle
  cycle-mod zero i j ks h = refl
  cycle-mod (suc n) i j ks h = rw (
    h,
    cycle-mod n (suc i) (suc j) ks
        (grind (arith, mod-add-mod i (length ks) 1, mod-add-mod j (length ks) 1)),
  )

  -- What stands at a place inside a list.
  at_place :
      (i : ℕ) (ks : List A)
      → i < length ks
      → (x : A) × (get_elem? ks i ≡ some x) × (drop i ks ≡ x ∷ drop (suc i) ks)
  at_place i [] h = absurd (omega arith)
  at_place zero (x ∷ ks) h = (x, refl, refl)
  at_place (suc i) (y ∷ ks) h = at_place i ks (omega arith)

  cycle-take :
      (n i : ℕ) (ks : List A) → i + n ≤ length ks → cycle n i ks ≡ map some (take n (drop i ks))
  unfolding cycle
  cycle-take zero i ks h = refl
  cycle-take (suc n) i ks h =
      let (x, at, rest) = at_place i ks (omega arith) in
      let same : i % length ks ≡ i = mod-eq_of_lt (omega arith) in
      rw (same, at, rest, cycle-take n (suc i) ks (omega arith))

  take_all : (xs : List A) → take (length xs) xs ≡ xs
  take_all [] = refl
  take_all (x ∷ xs) = rw (take_all xs)

  -- A full turn is the keys from its start to the end, then those before.
  cycle-turn :
      (j : ℕ) (ks : List A)
      → j < length ks
      → cycle (length ks) j ks ≡ map some (drop j ks ++ take j ks)
  cycle-turn j ks h =
      let size = length ks in
      let start : (j + (size - j)) % size ≡ 0 % size =
        ap (λ n. n % size) (omega arith) ∙ mod_self size ∙ sym (mod-eq_of_lt (omega arith)) in
      cycle size j ks
      ≡⟨ ap (λ n. cycle n j ks) (omega arith) ⟩ cycle (size - j + j) j ks
      ≡⟨ cycle-append (size - j) j j ks ⟩ cycle (size - j) j ks ++ cycle j (j + (size - j)) ks
      ≡⟨ rw
          (
            cycle-mod j (j + (size - j)) 0 ks start,
            cycle-take (size - j) j ks (omega arith),
            cycle-take j 0 ks (omega arith),
            ← length-drop j ks,
            take_all (drop j ks),
          )
          (sym (map-append _ _ _)) ⟩
        map some (drop j ks ++ take j ks) ∎

  -- As many calls in a row as there are keys, on the same list and away from the wrap of the
  -- counter, return every key once: those from the counter's place to the end, then those before.
  pub rounds-rotation :
      (r : RoundRobin) (k : A) (ks : List A)
      → r.counter + length (k ∷ ks) < 2 ^ 64
      → rounds (length (k ∷ ks)) r (k ∷ ks)
        ≡ map some (
            drop (r.counter % length (k ∷ ks)) (k ∷ ks)
            ++ take (r.counter % length (k ∷ ks)) (k ∷ ks))
  rounds-rotation r k ks h =
      let l = k ∷ ks in
      let j = r.counter % length l in
      rounds-cycle (length l) r.counter k ks h
      ∙ cycle-mod (length l) r.counter j l (sym (mod-mod r.counter (length l)))
      ∙ cycle-turn j l (mod-lt r.counter (omega arith))
