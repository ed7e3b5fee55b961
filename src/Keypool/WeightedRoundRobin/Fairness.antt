-- ===== src/Keypool/WeightedRoundRobin/Fairness.antt =====
-- What a run of Select in internal/keypool/weightedrr.go over one list of keys gives each of them.
use native.Mathlib.Nat.{mul-le-mul_left, le_of_mul-le-mul_left}
use go_key_pool_system.Prelude.{
  ℕ, zero, suc, ◌+◌, ◌*◌, ◌≤◌, ◌<◌, ◌≡◌, refl, inl, inr, String, Option, none, some, List, [], ◌∷◌,
  arith, if◌then◌else◌, str_eq, dec_lt, Bool-cases,
}
use go_key_pool_system.Prelude.Int.{pos, ◌≤ℤ◌, int_laws, parts, nonneg_parts, pos_part, neg_part}
use go_key_pool_system.Prelude.Members.{All, In, All-In, All-of_In, sum, sum_zero}
use go_key_pool_system.Keypool.PoolKey.{PoolKey}
use go_key_pool_system.Keypool.WeightedRoundRobin.{Weights, no_weights, select}
use go_key_pool_system.Keypool.WeightedRoundRobin.Accumulate.{id_of, weight_of}
use go_key_pool_system.Keypool.WeightedRoundRobin.Balance.{
  total, IsWeighted, IsBalanced, select-Chooses,
}

-- `n` calls in a row on the same keys: what they return, and the current weights after them.
unfoldable pub rounds : (ℕ → PoolKey) → List ℕ → ℕ → Weights → List (Option ℕ) × Weights
rounds store ks zero w = ([], w)
rounds store ks (suc n) w =
    let (k, w') = select store w ks in let (picks, w'') = rounds store ks n w' in (k ∷ picks, w'')

-- How many of the results are keys with the ID `s`.
unfoldable pub picked : (ℕ → PoolKey) → String → List (Option ℕ) → ℕ
picked store s [] = 0
picked store s (none ∷ picks) = picked store s picks
picked store s (some k ∷ picks) = (if str_eq s (store k).id then 1 else 0) + picked store s picks

module _ (store : ℕ → PoolKey) (ks : List ℕ) where
  abbrev picks_of : ℕ → Weights → ℕ → ℕ
  picks_of n w j = picked store (id_of store j) (rounds store ks n w).0

  rounds-IsBalanced :
      (n : ℕ) (w : Weights)
      → IsWeighted store ks
      → IsBalanced store ks w
      → IsBalanced store ks (rounds store ks n w).1
  unfolding rounds
  rounds-IsBalanced zero w c b = b
  rounds-IsBalanced (suc n) w c b =
      let (k, w', e, ch) = select-Chooses store ks w c b in
      rw e (rounds-IsBalanced n w' c ch.balanced)

  -- What `n` rounds do to one key: it gains its weight each time, and pays the total whenever it
  -- is picked.
  rounds-account :
      (n : ℕ) (w : Weights) (j : ℕ)
      → IsWeighted store ks
      → IsBalanced store ks w
      → In j ks
      → pos_part ((rounds store ks n w).1 (id_of store j))
          + neg_part (w (id_of store j))
          + pos_part (total store ks) * picks_of n w j
        ≡ neg_part ((rounds store ks n w).1 (id_of store j))
          + pos_part (w (id_of store j))
          + n * pos_part (weight_of store j)
  unfolding rounds picked
  rounds-account zero w j c b m = omega arith
  rounds-account (suc n) w j c b m =
      let (k, w', e, ch) = select-Chooses store ks w c b in
      let rest = rounds-account n w' j c ch.balanced m in
      let change = ch.changes j m in
      let light = nonneg_parts (weight_of store j) (All-In _ ks j c.nonneg m) in
      let heavy = nonneg_parts (total store ks) (omega (arith, c.positive)) in
      rw e (elim (Bool-cases (str_eq (id_of store j) (id_of store k))) [
        | inl hit ↦ rw hit (omega (int_laws, rest, light, heavy, parts (rw hit at change)))
        | inr miss ↦ rw miss (omega (int_laws, rest, light, heavy, parts (rw miss at change)))
      ])

  sum_zeros : (xs : List ℕ) → sum (λ k. no_weights (id_of store k)) xs ≡ pos 0
  unfolding sum
  sum_zeros [] = refl
  sum_zeros (x ∷ xs) = omega (int_laws, parts (sum_zeros xs))

  -- What differs from a multiple of `t` by nothing, and is above -t, is not negative.
  settled : (p q t c v : ℕ) → p + t * c ≡ q + t * v → q < p + t → q ≤ p
  settled p q t c v e h = elim (dec_lt v c) [
    | yes more ↦ absurd (omega (arith, mul-le-mul_left t more))
    | no less ↦ omega (arith, mul-le-mul_left {m = c} {n = v} t (omega arith))
  ]

  cancel : (t c v : ℕ) → 0 < t → t * c ≡ t * v → c ≡ v
  cancel t c v h e = omega (
    arith,
    le_of_mul-le-mul_left {m = c} {n = v} {k = t} (omega arith) h,
    le_of_mul-le-mul_left {m = v} {n = c} {k = t} (omega arith) h,
  )

  start-IsBalanced : IsWeighted store ks → IsBalanced store ks no_weights
  start-IsBalanced c = record {
    balance = sum_zeros ks;
    bounded = All-of_In ks (λ j i. omega (int_laws, c.positive));
  }

  -- From an empty table, as many calls in a row as the keys weigh together pick each key as often
  -- as its weight says, if their IDs are distinct, no weight is negative and not all are 0.
  pub rounds-fair :
      (j : ℕ)
      → IsWeighted store ks
      → In j ks
      → pos
          (picked store (id_of store j) (rounds store ks (pos_part (total store ks)) no_weights).0)
        ≡ weight_of store j
  rounds-fair j c m =
      let n = pos_part (total store ks) in
      let end = (rounds store ks n no_weights).1 in
      let b = start-IsBalanced c in
      let final = rounds-IsBalanced n no_weights c b in
      let high : All (λ i. pos 0 ≤ℤ end (id_of store i)) ks = All-of_In ks (λ i l.
        let bound = All-In _ ks i final.bounded l in
        let heavy = nonneg_parts (total store ks) (omega (arith, c.positive)) in
        omega (
          arith,
          settled (pos_part (end (id_of store i))) (neg_part (end (id_of store i))) n
              (picks_of n no_weights i) (pos_part (weight_of store i))
              (omega (arith, rounds-account n no_weights i c b l)) (omega (int_laws, bound, heavy)),
        )) in
      let zero_now = sum_zero (λ i. end (id_of store i)) ks j high final.balance m in
      let same =
        cancel n (picks_of n no_weights j) (pos_part (weight_of store j))
          (omega (arith, c.positive))
          (omega (arith, rounds-account n no_weights j c b m, parts zero_now)) in
      omega (int_laws, same, nonneg_parts (weight_of store j) (All-In _ ks j c.nonneg m))
