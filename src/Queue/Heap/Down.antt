-- ===== src/Queue/Heap/Down.antt =====
-- container/heap's down on the priorityQueue of internal/queue/priority_queue.go.
use go_key_pool_system.Prelude.{
  ℕ, zero, suc, ◌+◌, ◌*◌, ◌≤◌, ◌<◌, ◌≡◌, ◌≢◌, refl, ◌⊎◌, inl, inr, true, List, arith, length, leb,
  tests, Bool-cases, ℕ_discrete, subst, sym,
}
use go_key_pool_system.Queue.Item.{Item, Le, le_refl, le_trans, le_of_before, before}
use go_key_pool_system.Queue.Heap.{swap, less, child, down}
use go_key_pool_system.Queue.Heap.Swap.{entry_at, entry_at-swap, length-swap}
use go_key_pool_system.Queue.Heap.Order.{
  parent, IsHeap, IsBridged, Ordered, Ordered-swap, Ordered-refl,
}

-- Only the edges at `i` may be out of order.
pub record IsHole (n : ℕ) (pq : List Item) (i : ℕ) : Type 0 where
  pub room : n ≤ length pq
  pub edges :
      (c : ℕ) → 0 < c → c < n → c ≢ i → parent c ≢ i → Le (entry_at pq (parent c)) (entry_at pq c)
  pub bridged : IsBridged n pq i

-- Only the edges below `i` may be out of order.
pub record DownInv (n : ℕ) (pq : List Item) (i : ℕ) : Type 0 where
  pub hole : IsHole n pq i
  pub above : 0 < i → i < n → Le (entry_at pq (parent i)) (entry_at pq i)

-- The child that is compared is the least.
pub record IsLeastChild (n : ℕ) (pq : List Item) (i j : ℕ) : Type 0 where
  pub inside : j < n
  pub parent_is : parent j ≡ i
  pub below : i < j
  pub least : (c : ℕ) → 0 < c → c < n → parent c ≡ i → Le (entry_at pq j) (entry_at pq c)

two_children : (i c : ℕ) → 0 < c → parent c ≡ i → (c ≡ 2 * i + 1) ⊎ (c ≡ 2 * i + 1 + 1)
two_children i c p e = elim (ℕ_discrete c (2 * i + 1)) [
  | yes h ↦ inl h
  | no h ↦ inr (omega (arith, h, p, e))
]

child_right :
    (n : ℕ) (pq : List Item) (i : ℕ)
    → child pq i n ≢ 2 * i + 1
    → (child pq i n ≡ 2 * i + 1 + 1)
      × (2 * i + 1 + 1 < n)
      × Le (entry_at pq (2 * i + 1 + 1)) (entry_at pq (2 * i + 1))
unfolding less
child_right n pq i other =
    ground (arith, other, le_of_before (entry_at pq (2 * i + 1 + 1)) (entry_at pq (2 * i + 1)))

child-IsLeastChild :
    (n : ℕ) (pq : List Item) (i : ℕ) → 2 * i + 1 < n → IsLeastChild n pq i (child pq i n)
unfolding less
child-IsLeastChild n pq i l = elim (ℕ_discrete (child pq i n) (2 * i + 1)) [
  | yes left ↦ rw left record {
    inside = l;
    parent_is = omega arith;
    below = omega arith;
    least = λ c p h e. elim (two_children i c p e) [
      | inl at_left ↦ ground (arith, at_left, le_refl (entry_at pq c))
      | inr at_right ↦ ground (arith, at_right, left)
    ];
  }
  | no other ↦
      let right = child_right n pq i other in
      rw right.0 record {
        inside = right.1;
        parent_is = omega arith;
        below = omega arith;
        least = λ c p h e. elim (two_children i c p e) [
          | inl at_left ↦ ground (arith, at_left, right.2)
          | inr at_right ↦ ground (arith, at_right, le_refl (entry_at pq c))
        ];
      }
]

-- What one turn of the loop does.
data Turn (fuel n : ℕ) (pq : List Item) (i : ℕ) : Type 0 where
  rests :
      down (suc fuel) pq i n ≡ (pq, i)
      → ((c : ℕ) → 0 < c → c < n → parent c ≡ i → Le (entry_at pq i) (entry_at pq c))
      → Turn fuel n pq i
  sinks :
      (j : ℕ)
      → down (suc fuel) pq i n ≡ down fuel (swap pq i j) j n
      → IsLeastChild n pq i j
      → before (entry_at pq j) (entry_at pq i) ≡ true
      → Turn fuel n pq i

turn : (fuel n : ℕ) (pq : List Item) (i : ℕ) → Turn fuel n pq i
unfolding down less
turn fuel n pq i = elim (Bool-cases (leb n (2 * i + 1))) [
  | inl leaf ↦ rests (rw leaf refl) (λ c p l e. absurd (omega (tests, leaf, p, l, e)))
  | inr inner ↦
      let least = child-IsLeastChild n pq i (ground (arith, inner)) in
      elim (Bool-cases (before (entry_at pq (child pq i n)) (entry_at pq i))) [
        | inl first ↦ sinks (child pq i n) (rw (inner, first) refl) least first
        | inr settled ↦
            rests (rw (inner, settled) refl)
              (λ c p l e. le_trans _ _ _ settled (least.least c p l e))
      ]
]

swap-DownInv :
    (n : ℕ) (pq : List Item) (i j : ℕ)
    → IsHole n pq i
    → IsLeastChild n pq i j
    → before (entry_at pq j) (entry_at pq i) ≡ true
    → DownInv n (swap pq i j) j
swap-DownInv n pq i j v k first =
    let moved =
      entry_at-swap pq i j (omega (arith, k.inside, k.below, v.room))
        (omega (arith, k.inside, v.room)) in
    let above_below = le_of_before _ _ first in
    record {
      hole = record {
        room = omega (arith, v.room, length-swap pq i j);
        edges = λ c p l ne nep. elim (ℕ_discrete c i) [
          | yes at_i ↦ ground (
            arith,
            moved c,
            moved (parent c),
            k.below,
            v.bridged j (omega (arith, k.below)) k.inside k.parent_is,
          )
          | no apart ↦ elim (ℕ_discrete (parent c) i) [
            | yes child_of ↦
                ground (arith, moved c, moved (parent c), k.below, k.least c p l child_of)
            | no other ↦
                ground (arith, moved c, moved (parent c), k.below, v.edges c p l apart other)
          ]
        ];
        bridged = λ c p l e q. ground (
          arith,
          moved c,
          moved (parent j),
          k.below,
          k.parent_is,
          v.edges c p l (omega (arith, k.below)) (omega (arith, k.below)),
          e,
        );
      };
      above = λ p l. ground (arith, moved j, moved (parent j), k.below, k.parent_is, above_below);
    }

hole_settled :
    (n : ℕ) (pq : List Item) (i : ℕ)
    → DownInv n pq i
    → ((c : ℕ) → 0 < c → c < n → parent c ≡ i → Le (entry_at pq i) (entry_at pq c))
    → IsHeap n pq
hole_settled n pq i v below c p l = elim (ℕ_discrete c i) [
  | yes at_i ↦ ground (arith, at_i, v.above)
  | no apart ↦ elim (ℕ_discrete (parent c) i) [
    | yes child_of ↦
        subst (λ x. Le (entry_at pq x) (entry_at pq c)) (sym child_of) (below c p l child_of)
    | no other ↦ v.hole.edges c p l apart other
  ]
]

-- Sinking the one item that may be too high makes a heap, and the fuel is enough.
pub down_restores :
    (fuel n : ℕ) (pq : List Item) (i : ℕ)
    → n ≤ i + fuel
    → DownInv n pq i
    → Ordered n pq (down fuel pq i n).0
unfolding down
down_restores zero n pq i f v =
    Ordered-refl n pq (hole_settled n pq i v (λ c p l e. absurd (omega arith)))
down_restores (suc fuel) n pq i f v = elim (turn fuel n pq i) [
  | rests e settled ↦ rw e (Ordered-refl n pq (hole_settled n pq i v settled))
  | sinks j e least first ↦ rw e (
      Ordered-swap n pq i j _ (omega (arith, least.below, least.inside)) least.inside v.hole.room (
        down_restores fuel n (swap pq i j) j (omega (arith, least.below))
          (swap-DownInv n pq i j v.hole least first)))
]

pub down_rest : (fuel n : ℕ) (pq : List Item) (i : ℕ) → i ≤ (down fuel pq i n).1
unfolding down
down_rest zero n pq i = omega arith
down_rest (suc fuel) n pq i = elim (turn fuel n pq i) [
  | rests e settled ↦ rw e (omega arith)
  | sinks j e least first ↦ rw e (omega (arith, least.below, down_rest fuel n (swap pq i j) j))
]

-- What sinking does at a place that may be out of order both ways.
pub data Sinking (n : ℕ) (pq : List Item) (i : ℕ) (r : List Item × ℕ) : Type 0 where
  stayed :
      r ≡ (pq, i)
      → ((c : ℕ) → 0 < c → c < n → parent c ≡ i → Le (entry_at pq i) (entry_at pq c))
      → Sinking n pq i r
  sank : i < r.1 → Ordered n pq r.0 → Sinking n pq i r

pub down-Sinking :
    (fuel n : ℕ) (pq : List Item) (i : ℕ)
    → n ≤ i + fuel
    → i < n
    → IsHole n pq i
    → Sinking n pq i (down fuel pq i n)
down-Sinking zero n pq i f l v = absurd (omega arith)
down-Sinking (suc fuel) n pq i f l v = elim (turn fuel n pq i) [
  | rests e settled ↦ rw e (stayed refl settled)
  | sinks j e least first ↦ rw e (
      sank (omega (arith, least.below, down_rest fuel n (swap pq i j) j)) (
        Ordered-swap n pq i j _ l least.inside v.room (
          down_restores fuel n (swap pq i j) j (omega (arith, least.below))
            (swap-DownInv n pq i j v least first))))
]
