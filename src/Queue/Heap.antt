-- ===== src/Queue/Heap.antt =====
-- priorityQueue of internal/queue/priority_queue.go under the functions of Go's container/heap,
-- which call its methods. The list is the slice; an item stands in it with its index.
pub mod Swap
pub mod Order
pub mod Up
pub mod Down
pub mod Back
pub mod Remove
use go_key_pool_system.Prelude.{
  ℕ, zero, suc, ◌+◌, ◌-◌, ◌*◌, ◌/◌, Bool, true, false, not, ◌&&◌, ◌||◌, List, [], ◌∷◌, ◌++◌, ltb,
  leb, ◌==◌, if◌then◌else◌, length, set, take,
}
use go_key_pool_system.Prelude.Int.{ℤ, pos, negsuc}
use go_key_pool_system.Queue.Item.{Item, before}
use go_key_pool_system.Queue.Array.{get_or}

-- What a read outside the slice gives here; Go would panic.
abbrev pub no_item : Item
no_item = record {
  entry = record { request_id = ""; priority = pos 0; created_at = 0 };
  index = negsuc 0;
}

abbrev pub at : List Item → ℕ → Item
at pq i = get_or pq i no_item

unfoldable pub less : List Item → ℕ → ℕ → Bool
less pq i j = before (at pq i).entry (at pq j).entry

unfoldable pub swap : List Item → ℕ → ℕ → List Item
swap pq i j =
    set (set pq i (record (at pq j) { index = pos i })) j (record (at pq i) { index = pos j })

-- The methods Push and Pop.
unfoldable pub push_back : List Item → Item → List Item
push_back pq item = pq ++ record item { index = pos (length pq) } ∷ []

unfoldable pub pop_back : List Item → Item × List Item
pop_back pq = let n = length pq in (record (at pq (n - 1)) { index = negsuc 0 }, take (n - 1) pq)

-- container/heap's up, on fuel.
unfoldable pub up : ℕ → List Item → ℕ → List Item
up zero pq j = pq
up (suc fuel) pq j =
    let i = (j - 1) / 2 in
    let rest = up fuel (swap pq i j) i in if i == j || not (less pq j i) then pq else rest

-- The child that container/heap's down compares with.
abbrev pub child : List Item → ℕ → ℕ → ℕ
child pq i n =
    if ltb (2 * i + 1 + 1) n && less pq (2 * i + 1 + 1) (2 * i + 1)
    then 2 * i + 1 + 1
    else 2 * i + 1

-- container/heap's down, on fuel: the slice, and the place where the element came to rest.
unfoldable pub down : ℕ → List Item → ℕ → ℕ → List Item × ℕ
down zero pq i n = (pq, i)
down (suc fuel) pq i n =
    let j = child pq i n in
    let rest = down fuel (swap pq i j) j n in
    if leb n (2 * i + 1) || not (less pq j i) then (pq, i) else rest

unfoldable pub push : List Item → Item → List Item
push pq item = let pq' = push_back pq item in up (length pq') pq' (length pq' - 1)

unfoldable pub pop : List Item → Item × List Item
pop pq = let n = length pq - 1 in pop_back (down (length pq) (swap pq 0 n) 0 n).0

-- The element that comes to the place `i` sinks, or else rises.
unfoldable pub fix_at : List Item → ℕ → ℕ → List Item
fix_at pq i n =
    let (sunk, rest) = down (length pq) pq i n in if ltb i rest then sunk else up (length pq) sunk i

unfoldable pub remove : List Item → ℕ → Item × List Item
remove pq i = let n = length pq - 1 in pop_back (if n == i then pq else fix_at (swap pq i n) i n)
