-- ===== src/Keypool/RoundRobin.antt =====
-- internal/keypool/roundrobin.go. A key is what the list holds, whatever that is; the counter is a
-- uint64 and wraps at 2^64.
pub mod Rotation
use go_key_pool_system.Prelude.{
  ℕ, ◌+◌, ◌%◌, ◌^◌, String, Option, none, List, [], ◌∷◌, length, get_elem?,
}

abbrev pub uint64 : ℕ → ℕ
uint64 n = n % 2 ^ 64

pub record RoundRobin : Type 0 where
  pub counter : ℕ

unfoldable pub new : RoundRobin
new = record { counter = 0 }

abbrev pub name : String
name = "round_robin"

module _ {ℓ} {A : Type ℓ} where
  unfoldable pub select : RoundRobin → List A → Option A × RoundRobin
  select r [] = (none, r)
  select r (k ∷ ks) = (
    get_elem? (k ∷ ks) (r.counter % length (k ∷ ks)),
    record { counter = uint64 (r.counter + 1) },
  )

unfoldable pub reset : RoundRobin → RoundRobin
reset r = record { counter = 0 }
