-- ===== src/Queue/Heap/Remove.antt =====
-- container/heap's Push, Pop and Remove on the priorityQueue of internal/queue/priority_queue.go.
use mathlib.Core.List.{Perm}
use mathlib.Core.List.Perm
use go_key_pool_system.Prelude.{
  ℕ, suc, ◌-◌, ◌≤◌, ◌<◌, ◌≡◌, ◌≢◌, sym, ◌∙◌, subst, List, ◌∷◌, arith, length, ltb, tests, true,
  false, ◌==◌, ℕ_discrete,
}
use go_key_pool_system.Queue.Item.{Entry, Item, Le, le_trans}
use go_key_pool_system.Queue.Heap.{swap, down, push_back, pop_back, push, pop, fix_at, remove}
use go_key_pool_system.Queue.Heap.Swap.{
  entry_at, entries, Indexed, swap-Reordered, entry_at-swap, length-swap,
}
use go_key_pool_system.Queue.Heap.Order.{parent, IsHeap, Ordered, Ordered-refl}
use go_key_pool_system.Queue.Heap.Up.{UpInv, up_restores}
use go_key_pool_system.Queue.Heap.Down.{IsHole, stayed, sank, down_restores, down-Sinking}
use go_key_pool_system.Queue.Heap.Back.{
  IsValid, Removed, length-push_back, push_back-Indexed, push_back-perm, push_back-UpInv,
  pop_back-Removed,
}

-- What putting an item in makes of the slice.
pub record Inserted (pq : List Item) (e : Entry) (pq' : List Item) : Type 0 where
  pub valid : IsValid pq'
  pub same : Perm (entries pq') (e ∷ entries pq)
  pub size : length pq' ≡ suc (length pq)

Ordered-push :
    (pq : List Item) (item : Item)
    → IsValid pq
    → Ordered (suc (length pq)) (push_back pq item) (push pq item)
unfolding push
Ordered-push pq item v =
    let size = length-push_back pq item in
    let last : length (push_back pq item) - 1 ≡ length pq = omega arith in
    rw last (
      up_restores _ (suc (length pq)) (push_back pq item) (length pq) (omega arith)
        (push_back-UpInv pq item v.heap))

-- Push of an item on a valid heap gives a valid heap of its entries and the new one, of one place more.
pub push-Inserted :
    (pq : List Item) (item : Item) → IsValid pq → Inserted pq item.entry (push pq item)
push-Inserted pq item v =
    let o = Ordered-push pq item v in
    let size = o.moved.size ∙ length-push_back pq item in
    record {
      valid = record {
        heap = subst (λ n. IsHeap n (push pq item)) (sym size) o.heap;
        indexed = o.moved.indexed (push_back-Indexed pq item v.indexed);
      };
      same = Perm.trans o.moved.same (push_back-perm pq item);
      size = size;
    }

-- The last item comes to the place `i`, and what stood there goes to the end.
module _ (n : ℕ) (pq : List Item) (i : ℕ) (h : length pq ≡ suc n) (l : i ≤ n) where
  swap-entry : (c : ℕ) → c < n → c ≢ i → entry_at (swap pq i n) c ≡ entry_at pq c
  swap-entry c b ne = ground (arith, entry_at-swap pq i n (omega arith) (omega arith) c)

  swap-IsHole : IsHeap (length pq) pq → IsHole n (swap pq i n) i
  swap-IsHole heap = record {
    room = omega (arith, length-swap pq i n);
    edges = λ c p b ne nep.
        ground (
          arith,
          swap-entry c b ne,
          swap-entry (parent c) (omega arith) nep,
          heap c p (omega arith),
        );
    bridged = λ c p b e q. ground (
      arith,
      swap-entry c b (omega arith),
      swap-entry (parent i) (omega arith) (omega arith),
      le_trans (entry_at pq (parent i)) (entry_at pq i) (entry_at pq c) (heap i q (omega arith))
          (subst (λ x. Le (entry_at pq x) (entry_at pq c)) e (heap c p (omega arith))),
    );
  }

  swapped-Removed :
      (pq' : List Item)
      → Indexed pq
      → Ordered n (swap pq i n) pq'
      → Removed pq (entry_at pq i) (pop_back pq')
  swapped-Removed pq' ix o =
      let moved = swap-Reordered pq i n (omega arith) (omega arith) in
      let last : entry_at (swap pq i n) n ≡ entry_at pq i =
        ground (arith, entry_at-swap pq i n (omega arith) (omega arith) n) in
      let r = pop_back-Removed n (swap pq i n) pq' (moved.size ∙ h) (moved.indexed ix) o in
      record {
        taken = r.taken ∙ last;
        marked = r.marked;
        valid = r.valid;
        same =
            Perm.trans
              (subst (λ x. Perm (x ∷ entries (pop_back pq').1) (entries (swap pq i n))) last r.same)
              moved.same;
        size = r.size ∙ moved.size;
      }

-- Pop of a valid heap that is not empty gives the item of the root, marked as removed, and leaves a
-- valid heap of the others.
pub pop-Removed :
    (pq : List Item) → IsValid pq → 0 < length pq → Removed pq (entry_at pq 0) (pop pq)
unfolding pop
pop-Removed pq v l =
    let n = length pq - 1 in
    swapped-Removed n pq 0 (omega arith) (omega arith) _ v.indexed (
      down_restores (length pq) n (swap pq 0 n) 0 (omega arith) record {
        hole = swap-IsHole n pq 0 (omega arith) (omega arith) v.heap;
        above = λ p b. absurd (omega arith);
      })

hole-UpInv :
    (n : ℕ) (pq : List Item) (i : ℕ)
    → i < n
    → IsHole n pq i
    → ((c : ℕ) → 0 < c → c < n → parent c ≡ i → Le (entry_at pq i) (entry_at pq c))
    → UpInv n pq i
hole-UpInv n pq i l v settled = record {
  inside = l;
  room = v.room;
  edges = λ c p b ne. elim (ℕ_discrete (parent c) i) [
    | yes child_of ↦
        subst (λ x. Le (entry_at pq x) (entry_at pq c)) (sym child_of) (settled c p b child_of)
    | no other ↦ v.edges c p b ne other
  ];
  bridged = v.bridged;
}

fix_at_restores :
    (n : ℕ) (pq : List Item) (i : ℕ)
    → i < n
    → length pq ≡ suc n
    → IsHole n pq i
    → Ordered n pq (fix_at pq i n)
unfolding fix_at
fix_at_restores n pq i l h v = elim (down-Sinking (length pq) n pq i (omega arith) l v) [
  | stayed e settled ↦ rw e (
      let no_step : ltb i i ≡ false = ground arith in
      rw no_step (up_restores (length pq) n pq i (omega arith) (hole-UpInv n pq i l v settled)))
  | sank below o ↦
      let step : ltb i (down (length pq) pq i n).1 ≡ true = omega (tests, below) in rw step o
]

-- Remove at a place inside a valid heap gives the item of that place, marked as removed, and leaves
-- a valid heap of the others.
pub remove-Removed :
    (pq : List Item) (i : ℕ) → IsValid pq → i < length pq → Removed pq (entry_at pq i) (remove pq i)
unfolding remove
remove-Removed pq i v l =
    let n = length pq - 1 in
    elim (ℕ_discrete n i) [
      | yes last ↦
          let test : (n == i) ≡ true = ground (arith, last) in
          rw test (
            subst (λ x. Removed pq (entry_at pq x) (pop_back pq)) last
              (pop_back-Removed n pq pq (omega arith) v.indexed
                (Ordered-refl n pq (λ c p b. v.heap c p (omega arith)))))
      | no inner ↦
          let test : (n == i) ≡ false = ground (arith, inner) in
          let hole = swap-IsHole n pq i (omega arith) (omega arith) v.heap in
          rw test (
            swapped-Removed n pq i (omega arith) (omega arith) _ v.indexed (
              fix_at_restores n (swap pq i n) i (omega arith) (omega (arith, length-swap pq i n))
                hole))
    ]
