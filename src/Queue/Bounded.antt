-- ===== src/Queue/Bounded.antt =====
-- Queue of internal/queue/queue.go: what is done under its mutex. `notified` is the token in the
-- channel `notify`, which holds one at most; `stopped` says that `done` is closed.
pub mod Lowest
pub mod Enqueue
use go_key_pool_system.Prelude.{
  ℕ, zero, suc, Bool, true, false, not, ◌&&◌, ◌||◌, Option, none, some, List, [], ◌∷◌, ltb, ◌==◌,
  if◌then◌else◌, length,
}
use go_key_pool_system.Prelude.Int.{ℤ, pos, pos_part, ltb_ℤ, leb_ℤ, eqb_ℤ}
use go_key_pool_system.Queue.Item.{Item}
use go_key_pool_system.Queue.Heap.{push, pop, remove}

pub data QueueError : Type 0 where
  queue_full : QueueError
  queue_closed : QueueError

pub record Queue : Type 0 where
  pub pq : List Item
  pub max_size : ℤ
  pub closed : Bool
  pub preempt : Bool
  pub notified : Bool
  pub stopped : Bool

unfoldable pub new_queue : ℤ → Bool → Queue
new_queue max_size preempt = record {
  pq = [];
  max_size = max_size;
  closed = false;
  preempt = preempt;
  notified = false;
  stopped = false;
}

-- The test in findLowestPriority's loop.
abbrev pub worse : Item → Item → Bool
worse item worst =
    ltb_ℤ worst.priority item.priority
    || (eqb_ℤ item.priority worst.priority && ltb worst.created_at item.created_at)

unfoldable pub scan : List Item → Option Item → Option Item
scan [] worst = worst
scan (item ∷ items) none = scan items (some item)
scan (item ∷ items) (some worst) = scan items (some (if worse item worst then item else worst))

unfoldable pub find_lowest_priority : List Item → Option Item
find_lowest_priority pq = if length pq == 0 then none else scan pq none

-- The end of Enqueue: the push and the notification.
unfoldable pub admit : Queue → List Item → Item → Option QueueError × Queue
admit q pq item = (none, record q { pq = push pq item; notified = true })

unfoldable pub full : Queue → Option QueueError × Queue
full q = (some queue_full, q)

-- The eviction. An index is never negative in the heap; Go would panic.
unfoldable pub evict : Queue → Item → Option Item → Option QueueError × Queue
evict q item none = full q
evict q item (some worst) =
    if leb_ℤ worst.priority item.priority
    then full q
    else admit q (remove q.pq (pos_part worst.index)).1 item

unfoldable pub enqueue : Queue → Item → Option QueueError × Queue
enqueue q item =
    if q.closed
    then (some queue_closed, q)
    else if leb_ℤ q.max_size (pos (length q.pq))
    then (if not q.preempt then full q else evict q item (find_lowest_priority q.pq))
    else admit q q.pq item

unfoldable pub size : Queue → ℕ
size q = length q.pq

-- The two writes of Close: the flag, under the mutex, and then the channel `done`. `stopOnce` makes
-- a second call do nothing, which leaves both as they are.
unfoldable pub shut : Queue → Queue
shut q = record q { closed = true }

unfoldable pub signal : Queue → Queue
signal q = record q { stopped = true }

unfoldable pub close : Queue → Queue
close q = signal (shut q)
