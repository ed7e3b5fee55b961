-- ===== src/Queue/Heap/Order.antt =====
-- The heap order of internal/queue/priority_queue.go on the first places of the slice.
use go_key_pool_system.Prelude.{
  ℕ, zero, suc, ◌-◌, ◌/◌, ◌≤◌, ◌<◌, ◌≡◌, refl, ◌∙◌, List, arith, length,
}
use go_key_pool_system.Queue.Item.{Item, Le, le_refl, le_trans}
use go_key_pool_system.Queue.Heap.{swap}
use go_key_pool_system.Queue.Heap.Swap.{
  entry_at, Reordered, Reordered-refl, Reordered-trans, swap-Reordered, entry_at-swap,
}

abbrev pub parent : ℕ → ℕ
parent c = (c - 1) / 2

-- No item of the first `n` comes before its parent.
abbrev pub IsHeap : ℕ → List Item → Type 0
IsHeap n pq = (c : ℕ) → 0 < c → c < n → Le (entry_at pq (parent c)) (entry_at pq c)

-- The edges past `i`, from its parent to its children, are in order.
abbrev pub IsBridged : ℕ → List Item → ℕ → Type 0
IsBridged n pq i =
    (c : ℕ) → 0 < c → c < n → parent c ≡ i → 0 < i → Le (entry_at pq (parent i)) (entry_at pq c)

-- The places from `n` on are left alone.
abbrev pub Untouched : ℕ → List Item → List Item → Type 0
Untouched n pq pq' = (c : ℕ) → n ≤ c → entry_at pq' c ≡ entry_at pq c

-- The first `n` places are put in order.
pub record Ordered (n : ℕ) (pq pq' : List Item) : Type 0 where
  pub heap : IsHeap n pq'
  pub moved : Reordered pq pq'
  pub beyond : Untouched n pq pq'

pub swap-Untouched :
    (n : ℕ) (pq : List Item) (i j : ℕ)
    → i < n
    → j < n
    → n ≤ length pq
    → Untouched n pq (swap pq i j)
swap-Untouched n pq i j hi hj h c l =
    ground (arith, entry_at-swap pq i j (omega arith) (omega arith) c)

pub Ordered-swap :
    (n : ℕ) (pq : List Item) (i j : ℕ) (pq' : List Item)
    → i < n
    → j < n
    → n ≤ length pq
    → Ordered n (swap pq i j) pq'
    → Ordered n pq pq'
Ordered-swap n pq i j pq' hi hj h o = record {
  heap = o.heap;
  moved =
      Reordered-trans pq (swap pq i j) pq' (swap-Reordered pq i j (omega arith) (omega arith))
        o.moved;
  beyond = λ c l. o.beyond c l ∙ swap-Untouched n pq i j hi hj h c l;
}

pub Ordered-refl : (n : ℕ) (pq : List Item) → IsHeap n pq → Ordered n pq pq
Ordered-refl n pq h = record { heap = h; moved = Reordered-refl pq; beyond = λ c l. refl }

root_least_below :
    (fuel n : ℕ) (pq : List Item) (i : ℕ)
    → IsHeap n pq
    → i < fuel
    → i < n
    → Le (entry_at pq 0) (entry_at pq i)
root_least_below zero n pq i h f l = absurd (omega arith)
root_least_below (suc fuel) n pq zero h f l = le_refl (entry_at pq 0)
root_least_below (suc fuel) n pq (suc i) h f l =
    le_trans _ _ _ (root_least_below fuel n pq (parent (suc i)) h (omega arith) (omega arith))
      (h (suc i) (omega arith) l)

-- No item comes before the root.
pub root_least :
    (n : ℕ) (pq : List Item) (i : ℕ) → IsHeap n pq → i < n → Le (entry_at pq 0) (entry_at pq i)
root_least n pq i h l = root_least_below (suc i) n pq i h (omega arith) l
