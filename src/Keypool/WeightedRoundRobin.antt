-- ===== src/Keypool/WeightedRoundRobin.antt =====
-- internal/keypool/weightedrr.go. The map currentWeights is only ever read at a key, where a missing
-- one gives 0: it is a function. Weights are integers and do not wrap.
pub mod Accumulate
pub mod Balance
pub mod Fairness
pub mod Starvation
use go_key_pool_system.Prelude.{ℕ, String, Option, none, some, List, [], ◌∷◌, if◌then◌else◌, str_eq}
use go_key_pool_system.Prelude.Int.{ℤ, pos, negsuc, ◌+ℤ◌, ◌-ℤ◌, ltb_ℤ}
use go_key_pool_system.Keypool.PoolKey.{PoolKey}

abbrev pub Weights : Type 0
Weights = String → ℤ

-- make(map[string]int)
abbrev pub no_weights : Weights
no_weights s = pos 0

abbrev pub name : String
name = "weighted_round_robin"

-- w.currentWeights[id] = v
abbrev pub assign : Weights → String → ℤ → Weights
assign w id v s = if str_eq s id then v else w s

module _ (store : ℕ → PoolKey) where
  -- The first loop of Select: the total weight and the raised current weights.
  unfoldable pub accumulate : List ℕ → ℤ → Weights → ℤ × Weights
  accumulate [] total w = (total, w)
  accumulate (k ∷ ks) total w =
      let key = store k in
      accumulate ks (total +ℤ key.weight) (assign w key.id (w key.id +ℤ key.weight))

  -- The second loop: the first key of the highest current weight above `max_weight`.
  unfoldable pub highest : Weights → List ℕ → ℤ → Option ℕ → Option ℕ
  highest w [] max_weight selected = selected
  highest w (k ∷ ks) max_weight selected =
      let current = w (store k).id in
      let higher = ltb_ℤ max_weight current in
      highest w ks (if higher then current else max_weight) (if higher then some k else selected)

  -- The key is charged the total weight, if there is one.
  abbrev charge : Option ℕ → ℤ → Weights → Option ℕ × Weights
  charge none total w = (none, w)
  charge (some k) total w = let id = (store k).id in (some k, assign w id (w id -ℤ total))

  unfoldable pub select : Weights → List ℕ → Option ℕ × Weights
  select w [] = (none, w)
  select w (k ∷ ks) =
      let (total, raised) = accumulate (k ∷ ks) (pos 0) w in
      charge (highest raised (k ∷ ks) (negsuc 0) none) total raised

unfoldable pub reset : Weights → Weights
reset w = no_weights
