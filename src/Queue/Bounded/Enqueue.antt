-- ===== src/Queue/Bounded/Enqueue.antt =====
-- Enqueue of internal/queue/queue.go, on every branch.
use mathlib.Core.List.{Perm}
use go_key_pool_system.Prelude.{
  ℕ, suc, ◌<◌, ◌≡◌, refl, true, false, Option, none, some, List, ◌∷◌, arith, length, ◌⊎◌, inl, inr,
  Bool-cases, sym, ◌∙◌, ◌==◌, subst, ap, tests, ℕ_discrete, length-map,
}
use go_key_pool_system.Prelude.Int.{pos, pos_part, leb_ℤ, ◌<ℤ◌, ◌≤ℤ◌}
use go_key_pool_system.Queue.Item.{Entry, Item, before}
use go_key_pool_system.Queue.Heap.{at, remove}
use go_key_pool_system.Queue.Heap.Swap.{entries}
use go_key_pool_system.Queue.Heap.Back.{IsValid}
use go_key_pool_system.Queue.Heap.Remove.{push-Inserted, remove-Removed}
use go_key_pool_system.Queue.Bounded.{
  Queue, QueueError, queue_full, queue_closed, enqueue, evict, admit, full, find_lowest_priority,
}
use go_key_pool_system.Queue.Bounded.Lowest.{Lowest, find_lowest_priority-Lowest}

-- The queue's settings are kept, the heap is valid, and its entries are those of `kept` and `e`.
pub record Admitted (q : Queue) (e : Entry) (kept : List Entry) (r : Option QueueError × Queue)
    : Type 0 where
  pub accepted : r.0 ≡ none
  pub valid : IsValid r.1.pq
  pub same : Perm (entries r.1.pq) (e ∷ kept)
  pub size : length r.1.pq ≡ suc (length kept)
  pub settings : r.1 ≡ record q { pq = r.1.pq; notified = true }

-- The four results of a call.
pub data Enqueued (q : Queue) (item : Item) (r : Option QueueError × Queue) : Type 0 where
  refused : q.closed ≡ true → r ≡ (some queue_closed, q) → Enqueued q item r
  no_room :
      q.closed ≡ false
      → q.max_size ≤ℤ pos (length q.pq)
      → r ≡ (some queue_full, q)
      → (q.preempt ≡ false)
        ⊎ (length q.pq ≡ 0)
        ⊎ ((c : ℕ) → c < length q.pq → (at q.pq c).priority ≤ℤ item.priority)
      → Enqueued q item r
  room :
      q.closed ≡ false
      → pos (length q.pq) <ℤ q.max_size
      → Admitted q item.entry (entries q.pq) r
      → Enqueued q item r
  evicted :
      (victim : Item) (kept : List Entry)
      → q.closed ≡ false
      → q.preempt ≡ true
      → q.max_size ≤ℤ pos (length q.pq)
      → Lowest q.pq victim
      → item.priority <ℤ victim.priority
      → Perm (victim.entry ∷ kept) (entries q.pq)
      → Admitted q item.entry kept r
      → Enqueued q item r

admit-Admitted :
    (q : Queue) (pq : List Item) (item : Item)
    → IsValid pq
    → Admitted q item.entry (entries pq) (admit q pq item)
unfolding admit
admit-Admitted q pq item v =
    let i = push-Inserted pq item v in
    record {
      accepted = refl;
      valid = i.valid;
      same = i.same;
      size = omega (arith, i.size, length-map pq (λ (x : Item). x.entry));
      settings = refl;
    }

lower_than_lowest :
    (pq : List Item) (item victim : Item) (c : ℕ)
    → Lowest pq victim
    → victim.priority ≤ℤ item.priority
    → c < length pq
    → (at pq c).priority ≤ℤ item.priority
unfolding before
lower_than_lowest pq item victim c k h l = ground (arith, k.last c l)

victim_index :
    (pq : List Item) (victim : Item)
    → IsValid pq
    → (k : Lowest pq victim) → pos_part victim.index ≡ k.place
victim_index pq victim v k =
    ap (λ x. pos_part x.index) (sym k.stands) ∙ ap pos_part (v.indexed k.place k.inside)

evict-Enqueued :
    (q : Queue) (item : Item)
    → IsValid q.pq
    → q.closed ≡ false
    → q.preempt ≡ true
    → q.max_size ≤ℤ pos (length q.pq)
    → 0 < length q.pq
    → Enqueued q item (evict q item (find_lowest_priority q.pq))
unfolding evict full
evict-Enqueued q item v opened preempt above inside =
    let (victim, e, k) = find_lowest_priority-Lowest q.pq inside in
    elim (Bool-cases (leb_ℤ victim.priority item.priority)) [
      | inl low ↦
          rw (e, low)
            (no_room opened above refl
              (inr (inr (λ c. lower_than_lowest q.pq item victim c k (omega (tests, low))))))
      | inr high ↦
          let gone = remove-Removed q.pq k.place v k.inside in
          rw (e, high, victim_index q.pq victim v k)
            (evicted victim (entries (remove q.pq k.place).1) opened preempt above k
              (ground (arith, high))
              (subst (λ x. Perm (x.entry ∷ entries (remove q.pq k.place).1) (entries q.pq)) k.stands
                gone.same)
              (admit-Admitted q (remove q.pq k.place).1 item gone.valid))
    ]

find_empty : (pq : List Item) → length pq ≡ 0 → find_lowest_priority pq ≡ none
unfolding find_lowest_priority
find_empty pq h = let test : (length pq == 0) ≡ true = ground (arith, h) in rw test refl

-- `enqueue`, on a valid heap, does one of four things: it refuses since the queue is closed; it
-- refuses since the queue is full and may not preempt, or no item has a lower priority than the new
-- one; it adds the item; or it takes out the newest item of the lowest priority, which is lower than
-- the new one's, and adds the new one. The heap stays valid.
pub enqueue-Enqueued : (q : Queue) (item : Item) → IsValid q.pq → Enqueued q item (enqueue q item)
unfolding enqueue full evict
enqueue-Enqueued q item v = elim (Bool-cases q.closed) [
  | inl closed ↦ simp (closed) (refused closed refl)
  | inr opened ↦ elim (Bool-cases (leb_ℤ q.max_size (pos (length q.pq)))) [
    | inr below ↦
        simp (opened, below) (room opened (ground (arith, below)) (admit-Admitted q q.pq item v))
    | inl above ↦ elim (Bool-cases q.preempt) [
      | inr strict ↦
          simp (opened, above, strict) (no_room opened (omega (tests, above)) refl (inl strict))
      | inl preempt ↦ elim (ℕ_discrete (length q.pq) 0) [
        | yes empty ↦
            simp (opened, above, preempt, find_empty q.pq empty)
              (no_room opened (omega (tests, above)) refl (inr (inl empty)))
        | no some_item ↦
            simp (opened, above, preempt)
              (evict-Enqueued q item v opened preempt (omega (tests, above)) (omega arith))
      ]
    ]
  ]
]
