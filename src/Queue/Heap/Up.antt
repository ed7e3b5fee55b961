-- ===== src/Queue/Heap/Up.antt =====
-- container/heap's up on the priorityQueue of internal/queue/priority_queue.go.
use go_key_pool_system.Prelude.{
  ℕ, zero, suc, ◌≤◌, ◌<◌, ◌≡◌, ◌≢◌, ◌⊎◌, inl, inr, true, List, arith, length, Bool-cases,
  ℕ_discrete, subst, sym,
}
use go_key_pool_system.Queue.Item.{Item, Le, le_trans, le_of_before, before}
use go_key_pool_system.Queue.Heap.{swap, less, up}
use go_key_pool_system.Queue.Heap.Swap.{entry_at, entry_at-swap, length-swap}
use go_key_pool_system.Queue.Heap.Order.{
  parent, IsHeap, IsBridged, Ordered, Ordered-swap, Ordered-refl,
}

-- Only the edge above `i` may be out of order.
pub record UpInv (n : ℕ) (pq : List Item) (i : ℕ) : Type 0 where
  pub inside : i < n
  pub room : n ≤ length pq
  pub edges : (c : ℕ) → 0 < c → c < n → c ≢ i → Le (entry_at pq (parent c)) (entry_at pq c)
  pub bridged : IsBridged n pq i

swap-UpInv :
    (n : ℕ) (pq : List Item) (i : ℕ)
    → UpInv n pq i
    → 0 < i
    → before (entry_at pq i) (entry_at pq (parent i)) ≡ true
    → UpInv n (swap pq (parent i) i) (parent i)
swap-UpInv n pq i v pos_i above =
    let moved =
      entry_at-swap pq (parent i) i (omega (arith, v.inside, v.room))
        (omega (arith, v.inside, v.room)) in
    let below_above = le_of_before _ _ above in
    record {
      inside = omega (arith, v.inside);
      room = omega (arith, v.room, length-swap pq (parent i) i);
      edges = λ c p l ne. elim (ℕ_discrete c i) [
        | yes at_i ↦ ground (arith, moved c, moved (parent c), below_above)
        | no apart ↦ ground (
          arith,
          moved c,
          moved (parent c),
          v.edges c p l apart,
          λ (e : parent c ≡ i). v.bridged c p l e pos_i,
          λ (e : Le (entry_at pq (parent i)) (entry_at pq c)). le_trans _ _ _ below_above e,
        )
      ];
      bridged = λ c p l e q.
          let up_edge = v.edges (parent i) q (omega (arith, v.inside)) (omega arith) in
          elim (ℕ_discrete c i) [
            | yes at_i ↦ ground (arith, moved c, moved (parent (parent i)), up_edge)
            | no apart ↦ ground (
              arith,
              moved c,
              moved (parent (parent i)),
              le_trans _ _ _ up_edge
                  (subst (λ x. Le (entry_at pq x) (entry_at pq c)) e (v.edges c p l apart)),
            )
          ];
    }

up_stops :
    (fuel : ℕ) (pq : List Item) (i : ℕ)
    → (parent i ≡ i) ⊎ Le (entry_at pq (parent i)) (entry_at pq i)
    → up (suc fuel) pq i ≡ pq
unfolding up less
up_stops fuel pq i (inl root) = ground (arith, root)
up_stops fuel pq i (inr settled) = rw settled (ground arith)

up_rises :
    (fuel : ℕ) (pq : List Item) (i : ℕ)
    → parent i ≢ i
    → before (entry_at pq i) (entry_at pq (parent i)) ≡ true
    → up (suc fuel) pq i ≡ up fuel (swap pq (parent i) i) (parent i)
unfolding up less
up_rises fuel pq i inner above = rw above (ground (arith, inner))

IsHeap-at_root : (n : ℕ) (pq : List Item) (i : ℕ) → UpInv n pq i → parent i ≡ i → IsHeap n pq
IsHeap-at_root n pq i v root c p l = v.edges c p l (omega arith)

IsHeap-settled :
    (n : ℕ) (pq : List Item) (i : ℕ)
    → UpInv n pq i
    → Le (entry_at pq (parent i)) (entry_at pq i)
    → IsHeap n pq
IsHeap-settled n pq i v settled c p l = elim (ℕ_discrete c i) [
  | yes at_i ↦ subst (λ x. Le (entry_at pq (parent x)) (entry_at pq x)) (sym at_i) settled
  | no apart ↦ v.edges c p l apart
]

-- Raising the one item that may be too low makes a heap, and the fuel is enough.
pub up_restores :
    (fuel n : ℕ) (pq : List Item) (i : ℕ) → i < fuel → UpInv n pq i → Ordered n pq (up fuel pq i)
up_restores zero n pq i f v = absurd (omega arith)
up_restores (suc fuel) n pq i f v = elim (ℕ_discrete (parent i) i) [
  | yes root ↦ rw (up_stops fuel pq i (inl root)) (Ordered-refl n pq (IsHeap-at_root n pq i v root))
  | no inner ↦ elim (Bool-cases (before (entry_at pq i) (entry_at pq (parent i)))) [
    | inl above ↦ rw (up_rises fuel pq i inner above) (
        Ordered-swap n pq (parent i) i _ (omega (arith, v.inside)) v.inside v.room (
          up_restores fuel n (swap pq (parent i) i) (parent i) (omega arith)
            (swap-UpInv n pq i v (omega arith) above)))
    | inr settled ↦
        rw (up_stops fuel pq i (inr settled)) (Ordered-refl n pq (IsHeap-settled n pq i v settled))
  ]
]
