-- ===== src/Worker/Pool.antt =====
-- internal/worker/pool.go with the goroutines that it lives among: the loop of Start in
-- internal/worker/worker.go for each worker, the timers of delayedEnqueue, and dispatchLoop of
-- internal/queue/queue.go, whose drain is taken an item at a time here. A send on the unbuffered
-- channel is one step of the sender and the worker; drainRemaining holds the mutex of the queue, so
-- that Enqueue and Close wait until it is over. A call of processItem ends at some time, with the
-- retry that it asks for; its other effects are those of Worker.ProcessItem.
pub mod Accounts
pub mod Moves
pub mod Entering
pub mod Conserved
pub mod Measure
pub mod Shutdown
use go_key_pool_system.Prelude.{
  ℕ, suc, ◌+◌, ◌-◌, ◌/◌, ◌<◌, ◌≡◌, ◌≢◌, Bool, true, false, Option, none, some, List, [], ◌∷◌, ◌++◌,
  ltb, String, ◌||◌, if◌then◌else◌, length, get_elem?, set, remove_at,
}
use go_key_pool_system.Db.Adapter.{Request, Write}
use go_key_pool_system.Prelude.Int.{pos, leb_ℤ}
use go_key_pool_system.Keypool.Manager.{Manager}
use go_key_pool_system.Queue.Item.{Entry, Item}
use go_key_pool_system.Queue.Heap.{pop}
use go_key_pool_system.Queue.Bounded.{Queue, QueueError, enqueue, shut, signal}
use go_key_pool_system.Worker.ProcessItem.{Worker, Processed, is_settled, process_item}
use go_key_pool_system.Worker.ProcessItem.Settled.{results}

-- A worker is on its way to the select of Start or at it, in processItem, or has returned.
pub data Phase : Type 0 where
  idle : Phase
  busy : Item → Phase
  ended : Phase

-- dispatchLoop at its outer select, before the test of its inner loop, at its inner select, in
-- drainRemaining, and after it has closed the channel.
pub data Loop : Type 0 where
  waiting : Loop
  running : Loop
  holding : Item → Loop
  draining : Loop
  finished : Loop

-- The workers that run, how many Start has still to launch and the delay between two of them, the
-- WaitGroup, the items that wait for a timer, and whether the context is cancelled. The other fields
-- keep what became of the items: those that callers put in, those whose request processItem found
-- settled or wrote a final result for, those whose row it could not load, and those that Enqueue
-- refused after the delay, that were given up as the context was cancelled, and that were dropped as
-- the queue shut down; and how often Enqueue took an item in while the queue was full.
pub record Service : Type 0 where
  pub queue : Queue
  pub loop : Loop
  pub workers : List Phase
  pub to_start : ℕ
  pub delay : ℕ
  pub wait_group : ℕ
  pub delayed : List Item
  pub cancelled : Bool
  pub accepted : List Entry
  pub settled : List Entry
  pub unloaded : List Entry
  pub refused : List Entry
  pub abandoned : List Entry
  pub dropped : List Entry
  pub preemptions : ℕ

-- warmupPeriod / len(p.workers), where there is more than one.
unfoldable pub warmup_delay : ℕ → ℕ → ℕ
warmup_delay warmup_period count = if ltb 1 count then warmup_period / count else 0

-- NewPool and the call of Start, beside a new queue.
unfoldable pub open_pool : ℕ → ℕ → Queue → Service
open_pool count warmup_period q = record {
  queue = q;
  loop = waiting;
  workers = [];
  to_start = count;
  delay = warmup_delay warmup_period count;
  wait_group = 0;
  delayed = [];
  cancelled = false;
  accepted = [];
  settled = [];
  unloaded = [];
  refused = [];
  abandoned = [];
  dropped = [];
  preemptions = 0;
}

-- The count after a call of Enqueue with this result.
unfoldable pub preempting : Queue → Option QueueError → ℕ → ℕ
preempting q none n = if leb_ℤ q.max_size (pos (length q.pq)) then n + 1 else n
preempting q (some e) n = n

unfoldable pub submit : Item → Service → Service
submit item s =
    let (error, queue) = enqueue s.queue item in
    record s {
      queue = queue;
      accepted = elim error [ none ↦ item.entry ∷ s.accepted | _ ↦ s.accepted ];
      preemptions = preempting s.queue error s.preemptions;
    }

unfoldable pub launch : ℕ → Service → Service
launch left s = record s {
  workers = s.workers ++ idle ∷ [];
  to_start = left;
  wait_group = s.wait_group + 1;
}

unfoldable pub take_item : Service → Service
take_item s =
    let (item, rest) = pop s.queue.pq in
    record s { queue = record s.queue { pq = rest }; loop = holding item }

-- The item of the loop's hand goes to the worker that receives it.
unfoldable pub deliver : ℕ → Item → Service → Service
deliver i item s = record s { loop = running; workers = set s.workers i (busy item) }

-- One round of drainRemaining, with a worker that receives the item, and with none.
unfoldable pub drain_to : ℕ → Service → Service
drain_to i s =
    let (item, rest) = pop s.queue.pq in
    record s { queue = record s.queue { pq = rest }; workers = set s.workers i (busy item) }

unfoldable pub drop_item : Service → Service
drop_item s =
    let (item, rest) = pop s.queue.pq in
    record s { queue = record s.queue { pq = rest }; dropped = item.entry ∷ s.dropped }

-- What a call of processItem makes of its item: its request is settled, its row was not loaded, it
-- goes to delayedEnqueue, or none of these.
pub data Fate : Type 0 where
  settles : Fate
  not_loaded : Fate
  to_retry : Fate
  vanishes : Fate

abbrev pub without_retry : String → Option (Option Request) → List Write → Fate
without_retry id none writes = not_loaded
without_retry id (some none) writes = not_loaded
without_retry id (some (some req)) writes =
    if is_settled req.status || ltb 0 (results id writes) then settles else vanishes

-- By the row that GetRequest gave, and by what processItem wrote under the ID of the item.
unfoldable pub fate : {H : Type 0} → String → Option (Option Request) → Processed H → Fate
fate id row done = elim done.requeue [
  | some attempt ↦ to_retry
  | none ↦ without_retry id row done.writes
]

-- GetRequest is asked for the ID of the item.
abbrev pub IsRowOf : Item → Option (Option Request) → Type 0
IsRowOf item none = Unit
IsRowOf item (some none) = Unit
IsRowOf item (some (some req)) = req.id ≡ item.entry.request_id

-- A worker is done with its item.
unfoldable pub complete : ℕ → Item → Fate → Service → Service
complete i item settles s = record s {
  workers = set s.workers i idle;
  settled = item.entry ∷ s.settled;
}
complete i item not_loaded s = record s {
  workers = set s.workers i idle;
  unloaded = item.entry ∷ s.unloaded;
}
complete i item to_retry s = record s { workers = set s.workers i idle; delayed = item ∷ s.delayed }
complete i item vanishes s = record s { workers = set s.workers i idle }

unfoldable pub end_worker : ℕ → Service → Service
end_worker i s = record s { workers = set s.workers i ended; wait_group = s.wait_group - 1 }

-- A timer of delayedEnqueue has run out; a refusal is only logged.
unfoldable pub requeue : ℕ → Item → Service → Service
requeue j item s =
    let (error, queue) = enqueue s.queue item in
    record s {
      queue = queue;
      delayed = remove_at s.delayed j;
      refused = elim error [ none ↦ s.refused | _ ↦ item.entry ∷ s.refused ];
      preemptions = preempting s.queue error s.preemptions;
    }

unfoldable pub abandon : ℕ → Item → Service → Service
abandon j item s = record s {
  delayed = remove_at s.delayed j;
  abandoned = item.entry ∷ s.abandoned;
}

module _ (F H : Type 0) where
  -- A step of the goroutines, of Close, or of the cancellation.
  pub data Act (s : Service) : Service → Type 0 where
    launches : (left : ℕ) → s.to_start ≡ suc left → Act s (launch left s)
    gives_up :
        s.cancelled ≡ true
        → 0 < length s.workers
        → 0 < s.to_start
        → 0 < s.delay
        → Act s (record s { to_start = 0 })
    wakes :
        s.loop ≡ waiting
        → s.queue.notified ≡ true
        → Act s (record s { queue = record s.queue { notified = false }; loop = running })
    takes : s.loop ≡ running → 0 < length s.queue.pq → Act s (take_item s)
    rests : s.loop ≡ running → length s.queue.pq ≡ 0 → Act s (record s { loop = waiting })
    delivers :
        (i : ℕ) (item : Item)
        → s.loop ≡ holding item
        → get_elem? s.workers i ≡ some idle
        → Act s (deliver i item s)
    stops : s.loop ≡ waiting → s.queue.stopped ≡ true → Act s (record s { loop = draining })
    stops_holding :
        (item : Item)
        → s.loop ≡ holding item
        → s.queue.stopped ≡ true
        → Act s (record s { loop = draining; dropped = item.entry ∷ s.dropped })
    drains :
        (i : ℕ)
        → s.loop ≡ draining
        → 0 < length s.queue.pq
        → get_elem? s.workers i ≡ some idle
        → Act s (drain_to i s)
    drops : s.loop ≡ draining → 0 < length s.queue.pq → Act s (drop_item s)
    closes : s.loop ≡ draining → length s.queue.pq ≡ 0 → Act s (record s { loop = finished })
    completes :
        (w : Worker F H) (i : ℕ) (item : Item) (now later : ℕ) (row : Option (Option Request))
        (m : Manager)
        → get_elem? s.workers i ≡ some (busy item)
        → IsRowOf item row
        → Act s
            (complete i item (fate item.entry.request_id row (process_item w now later row m)) s)
    sees_cancel :
        (i : ℕ) → get_elem? s.workers i ≡ some idle → s.cancelled ≡ true → Act s (end_worker i s)
    sees_close :
        (i : ℕ) → get_elem? s.workers i ≡ some idle → s.loop ≡ finished → Act s (end_worker i s)
    expires :
        (j : ℕ) (item : Item)
        → get_elem? s.delayed j ≡ some item
        → s.loop ≢ draining
        → Act s (requeue j item s)
    abandons :
        (j : ℕ) (item : Item)
        → get_elem? s.delayed j ≡ some item
        → s.cancelled ≡ true
        → Act s (abandon j item s)
    shuts : s.queue.closed ≡ false → s.loop ≢ draining → Act s (record s { queue = shut s.queue })
    signals :
        s.queue.closed ≡ true
        → s.queue.stopped ≡ false
        → Act s (record s { queue = signal s.queue })
    cancels : s.cancelled ≡ false → Act s (record s { cancelled = true })

  -- A run, with the number of its steps that are not calls of Enqueue from outside.
  pub data Run (s : Service) : ℕ → Service → Type 0 where
    here : Run s 0 s
    submits :
        {n : ℕ} {t : Service} (item : Item)
        → t.loop ≢ draining
        → Run s n t
        → Run s n (submit item t)
    acts : {n : ℕ} {t u : Service} → Run s n t → Act t u → Run s (suc n) u
