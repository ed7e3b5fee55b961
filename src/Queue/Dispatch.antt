-- ===== src/Queue/Dispatch.antt =====
-- dispatchLoop and drainRemaining of internal/queue/queue.go, beside the callers of Enqueue and Close.
pub mod Accounts
pub mod Entered
pub mod Delivery
use go_key_pool_system.Prelude.{
  ℕ, zero, suc, ◌<◌, ◌≡◌, Bool, true, false, Option, none, List, [], ◌∷◌, ◌++◌, map, ◌==◌,
  if◌then◌else◌, length,
}
use go_key_pool_system.Queue.Item.{Entry, Item}
use go_key_pool_system.Queue.Heap.{pop}
use go_key_pool_system.Queue.Bounded.{Queue, enqueue, shut, signal}

-- What drainRemaining does with the items: those a worker took, those it dropped, and what is left.
pub record Drained : Type 0 where
  pub sent : List Item
  pub dropped : List Item
  pub left : List Item

-- The loop, on fuel. `ready` says whether a worker waits at the send with that much fuel left.
unfoldable pub drain : ℕ → List Item → (ℕ → Bool) → Drained
drain zero pq ready = record { sent = []; dropped = []; left = pq }
drain (suc fuel) pq ready =
    let (item, rest) = pop pq in
    let more = drain fuel rest ready in
    if length pq == 0
    then record { sent = []; dropped = []; left = pq }
    else if ready fuel
    then record more { sent = item ∷ more.sent }
    else record more { dropped = item ∷ more.dropped }

unfoldable pub drain_remaining : List Item → (ℕ → Bool) → Drained
drain_remaining pq ready = drain (length pq) pq ready

-- Where the goroutine of dispatchLoop stands: at the outer select, before the test of the inner
-- loop, at the inner select with an item in its hand, or at the end.
pub data Loop : Type 0 where
  waiting : Loop
  running : Loop
  holding : Item → Loop
  finished : Loop

-- The queue and the loop, with a record of what went in, reached a worker, and was lost.
pub record System : Type 0 where
  pub queue : Queue
  pub loop : Loop
  pub accepted : List Entry
  pub delivered : List Entry
  pub lost : List Entry

unfoldable pub submit : Item → System → System
submit item s =
    let (error, queue) = enqueue s.queue item in
    record s {
      queue = queue;
      accepted = elim error [ none ↦ item.entry ∷ s.accepted | _ ↦ s.accepted ];
    }

unfoldable pub take_item : System → System
take_item s =
    let (item, rest) = pop s.queue.pq in
    record s { queue = record s.queue { pq = rest }; loop = holding item }

-- The loop ends: the items left are offered once, without waiting.
unfoldable pub finish : (ℕ → Bool) → List Entry → System → System
finish ready in_hand s =
    let d = drain_remaining s.queue.pq ready in
    record s {
      queue = record s.queue { pq = d.left };
      loop = finished;
      delivered = map (λ x. x.entry) d.sent ++ s.delivered;
      lost = map (λ x. x.entry) d.dropped ++ in_hand ++ s.lost;
    }

-- One step of a caller, or of the loop.
pub data Step (s : System) : System → Type 0 where
  submits : (item : Item) → Step s (submit item s)
  shuts : Step s (record s { queue = shut s.queue })
  signals : s.queue.closed ≡ true → Step s (record s { queue = signal s.queue })
  wakes :
      s.loop ≡ waiting
      → s.queue.notified ≡ true
      → Step s (record s { queue = record s.queue { notified = false }; loop = running })
  takes : s.loop ≡ running → 0 < length s.queue.pq → Step s (take_item s)
  rests : s.loop ≡ running → length s.queue.pq ≡ 0 → Step s (record s { loop = waiting })
  delivers :
      (item : Item)
      → s.loop ≡ holding item
      → Step s (record s { loop = running; delivered = item.entry ∷ s.delivered })
  stops :
      (ready : ℕ → Bool) → s.loop ≡ waiting → s.queue.stopped ≡ true → Step s (finish ready [] s)
  stops_holding :
      (item : Item) (ready : ℕ → Bool)
      → s.loop ≡ holding item
      → s.queue.stopped ≡ true
      → Step s (finish ready (item.entry ∷ []) s)

pub data Reach (s : System) : System → Type 0 where
  here : Reach s s
  next : {t u : System} → Reach s t → Step t u → Reach s u

-- A new queue with its loop started.
unfoldable pub start : Queue → System
start q = record { queue = q; loop = waiting; accepted = []; delivered = []; lost = [] }
