-- ===== src/Tests/Queue.antt =====
-- Runs of internal/queue at concrete inputs: a queue of room for one item.
use go_key_pool_system.Prelude.{ℕ, ◌≡◌, String, true, false, [], arith, length}
use go_key_pool_system.Prelude.Int.{ℤ, pos, negsuc}
use go_key_pool_system.Queue.Item.{Item, Le}
use go_key_pool_system.Queue.Heap.{push}
use go_key_pool_system.Queue.Heap.Swap.{entry_at}
use go_key_pool_system.Queue.Heap.Back.{IsValid}
use go_key_pool_system.Queue.Heap.Remove.{Inserted, push-Inserted}
use go_key_pool_system.Queue.Bounded.{Queue, new_queue, enqueue}
use go_key_pool_system.Queue.Bounded.Enqueue.{Enqueued, enqueue-Enqueued}
use go_key_pool_system.Queue.Dispatch
use go_key_pool_system.Queue.Dispatch.{System, submit, start, take_item, holding}
use go_key_pool_system.Queue.Dispatch.Accounts.{IsSound}
use go_key_pool_system.Queue.Dispatch.Delivery.{Reach-IsSound, start-IsSound, take_item_first}

abbrev pub item_of : String → ℤ → ℕ → Item
item_of id priority time = record {
  entry = record { request_id = id; priority = priority; created_at = time };
  index = negsuc 0;
}

abbrev late : Item
late = item_of "late" (pos 3) 5

abbrev pub urgent : Item
urgent = item_of "urgent" (pos 1) 9

empty-IsValid : IsValid []
empty-IsValid = record {
  heap = λ c a b. absurd (omega arith);
  indexed = λ c a. absurd (omega arith);
}

one-IsValid : IsValid (push [] late)
one-IsValid = (push-Inserted [] late empty-IsValid).valid

both : Inserted (push [] late) urgent.entry (push (push [] late) urgent)
both = push-Inserted (push [] late) urgent one-IsValid

two_items : length (push (push [] late) urgent) ≡ 2
two_items = omega (arith, both.size, (push-Inserted [] late empty-IsValid).size)

abbrev small : Queue
small = record {
  pq = push [] late;
  max_size = pos 1;
  closed = false;
  preempt = true;
  notified = true;
  stopped = false;
}

enqueue-Enqueued_example : Enqueued small urgent (enqueue small urgent)
enqueue-Enqueued_example = enqueue-Enqueued small urgent one-IsValid

Reach-IsSound_example : IsSound (submit urgent (submit late (start (new_queue (pos 1) true))))
Reach-IsSound_example =
    Reach-IsSound (start-IsSound (pos 1) true) (
      Dispatch.next (Dispatch.next Dispatch.here (Dispatch.submits late)) (Dispatch.submits urgent))

abbrev queued : System
queued = start small

take_item_first_example :
    (item : Item) × ((take_item queued).loop ≡ holding item)
    × Le item.entry (entry_at queued.queue.pq 0)
unfolding start
take_item_first_example =
    take_item_first queued 0 one-IsValid (omega (arith, (push-Inserted [] late empty-IsValid).size))
