-- ===== src/Queue/Dispatch/Entered.antt =====
-- What Enqueue of internal/queue/queue.go does to the counts of the entries in the queue.
use go_key_pool_system.Prelude.{
  ◌+◌, ◌≡◌, refl, Bool, true, false, Option, none, some, List, [], ◌∷◌, arith, ◌⊎◌, inl, inr,
  length, if◌then◌else◌,
}
use go_key_pool_system.Prelude.Int.{pos, leb_ℤ}
use go_key_pool_system.Queue.Item.{Entry, Item}
use go_key_pool_system.Queue.Heap.Swap.{entries}
use go_key_pool_system.Queue.Heap.Back.{IsValid}
use go_key_pool_system.Queue.Bounded.{Queue, QueueError, enqueue}
use go_key_pool_system.Queue.Bounded.Enqueue.{
  Admitted, refused, no_room, room, evicted, enqueue-Enqueued,
}
use go_key_pool_system.Queue.Dispatch.Accounts.{tally, tally-perm, none_left, one_left}

-- An item that comes in, with those that it evicted among `gone`.
pub record Entered (q : Queue) (e : Entry) (gone : List Entry) (r : Option QueueError × Queue)
    : Type 0 where
  pub accepted : r.0 ≡ none
  pub opened : q.closed ≡ false
  pub valid : IsValid r.1.pq
  pub settings : r.1 ≡ record q { pq = r.1.pq; notified = true }
  pub counts :
      (p : Entry → Bool)
      → tally p (entries r.1.pq) + tally p gone ≡ tally p (entries q.pq) + tally p (e ∷ [])
  pub preempted : (q.preempt ≡ true) ⊎ (gone ≡ [])
  pub evicted : length gone ≡ (if leb_ℤ q.max_size (pos (length q.pq)) then 1 else 0)

-- An error leaves the queue as it was.
abbrev pub EnqueueOutcome : Queue → Entry → Option QueueError × Queue → Type 0
EnqueueOutcome q e r =
    ((error : QueueError) × (r ≡ (some error, q))) ⊎ ((gone : List Entry) × Entered q e gone r)

Admitted-Entered :
    (q : Queue) (e : Entry) (kept gone : List Entry) (r : Option QueueError × Queue)
    → q.closed ≡ false
    → Admitted q e kept r
    → ((p : Entry → Bool) → tally p gone + tally p kept ≡ tally p (entries q.pq))
    → (q.preempt ≡ true) ⊎ (gone ≡ [])
    → length gone ≡ (if leb_ℤ q.max_size (pos (length q.pq)) then 1 else 0)
    → Entered q e gone r
unfolding tally
Admitted-Entered q e kept gone r c a balance allowed number = record {
  accepted = a.accepted;
  opened = c;
  valid = a.valid;
  settings = a.settings;
  counts = λ p. omega (arith, balance p, tally-perm p _ _ a.same);
  preempted = allowed;
  evicted = number;
}

pub enqueue-Outcome :
    (q : Queue) (item : Item) → IsValid q.pq → EnqueueOutcome q item.entry (enqueue q item)
enqueue-Outcome q item v = elim (enqueue-Enqueued q item v) [
  | refused c e ↦ inl (_, e)
  | no_room c m e why ↦ inl (_, e)
  | room c m a ↦ inr (
    [],
    Admitted-Entered q item.entry _ [] _ c a (λ p. none_left p _) (inr refl) (ground (arith, m)),
  )
  | evicted victim kept c pre m low lower same a ↦ inr (
    victim.entry ∷ [],
    Admitted-Entered q item.entry kept _ _ c a (λ p. one_left p victim.entry kept _ same) (inl pre)
        (ground (arith, m)),
  )
]
