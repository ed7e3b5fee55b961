-- ===== src/Worker/Pool/Accounts.antt =====
-- Where the items of the service around internal/worker/pool.go are, and what its steps make of it.
use go_key_pool_system.Prelude.{
  ℕ, ◌+◌, ◌<◌, ◌≡◌, ap, Bool, true, false, some, List, [], ◌∷◌, arith, length, get_elem?, ◌⊎◌,
}
use go_key_pool_system.Prelude.Totals.{total, total-append, total-set}
use go_key_pool_system.Queue.Item.{Entry, Item}
use go_key_pool_system.Queue.Heap.Swap.{entries}
use go_key_pool_system.Queue.Heap.Back.{IsValid}
use go_key_pool_system.Queue.Heap.Remove.{pop-Removed}
use go_key_pool_system.Queue.Bounded.{Queue}
use go_key_pool_system.Queue.Dispatch.Accounts.{tally, pop-tally}
use go_key_pool_system.Worker.Pool.{
  Phase, idle, busy, ended, Loop, waiting, running, holding, draining, finished, Service, launch,
  take_item, deliver,
}

abbrev pub held : (Entry → Bool) → Loop → ℕ
held p (holding item) = tally p (item.entry ∷ [])
held p waiting = 0
held p running = 0
held p draining = 0
held p finished = 0

abbrev pub carried : (Entry → Bool) → Phase → ℕ
carried p (busy item) = tally p (item.entry ∷ [])
carried p idle = 0
carried p ended = 0

abbrev pub one : (Entry → Bool) → Item → ℕ
one p item = tally p (item.entry ∷ [])

abbrev pub runs : Phase → ℕ
runs ended = 0
runs idle = 1
runs (busy item) = 1

-- The entries that pass a test, at each place where they may be.
abbrev pub accounted : (Entry → Bool) → List Entry → Service → ℕ
accounted p gone s =
    tally p s.settled
    + tally p s.unloaded
    + tally p s.refused
    + tally p s.abandoned
    + tally p s.dropped
    + tally p gone
    + held p s.loop
    + total (carried p) s.workers
    + total (one p) s.delayed
    + tally p (entries s.queue.pq)

abbrev pub At : Loop → Queue → Type 0
At waiting q = (length q.pq ≡ 0) ⊎ (q.notified ≡ true)
At running q = Unit
At (holding item) q = Unit
At draining q = (q.closed ≡ true) × (q.stopped ≡ true)
At finished q = (length q.pq ≡ 0) × (q.closed ≡ true)

-- What holds of the service with the entries `gone` preempted: as many as Enqueue took items in while
-- the queue was full.
pub record Sound (gone : List Entry) (s : Service) : Type 0 where
  pub valid : IsValid s.queue.pq
  pub preempted : (s.queue.preempt ≡ true) ⊎ (gone ≡ [])
  pub evictions : length gone ≡ s.preemptions
  pub balanced : (p : Entry → Bool) → tally p s.accepted ≡ accounted p gone s
  pub counted : s.wait_group ≡ total runs s.workers
  pub standing : At s.loop s.queue
  pub shutting : (s.queue.stopped ≡ false) ⊎ (s.queue.closed ≡ true)
  pub drops : (s.dropped ≡ []) ⊎ (s.queue.stopped ≡ true)
  pub gives_up : (s.abandoned ≡ []) ⊎ (s.cancelled ≡ true)

pub launch-Sound :
    (gone : List Entry) (left : ℕ) (s : Service) → Sound gone s → Sound gone (launch left s)
unfolding launch total
launch-Sound gone left s h = record {
  valid = h.valid;
  preempted = h.preempted;
  evictions = h.evictions;
  balanced = λ p. omega (arith, h.balanced p, total-append (carried p) s.workers (idle ∷ []));
  counted = omega (arith, h.counted, total-append runs s.workers (idle ∷ []));
  standing = h.standing;
  shutting = h.shutting;
  drops = h.drops;
  gives_up = h.gives_up;
}

pub take_item-Sound :
    (gone : List Entry) (s : Service)
    → s.loop ≡ running
    → 0 < length s.queue.pq
    → Sound gone s
    → Sound gone (take_item s)
unfolding take_item tally
take_item-Sound gone s r l h = record {
  valid = (pop-Removed s.queue.pq h.valid l).valid;
  preempted = h.preempted;
  evictions = h.evictions;
  balanced = λ p. omega (arith, h.balanced p, pop-tally p s.queue.pq h.valid l, ap (held p) r);
  counted = h.counted;
  standing = tt;
  shutting = h.shutting;
  drops = h.drops;
  gives_up = h.gives_up;
}

pub deliver-Sound :
    (gone : List Entry) (i : ℕ) (item : Item) (s : Service)
    → s.loop ≡ holding item
    → get_elem? s.workers i ≡ some idle
    → Sound gone s
    → Sound gone (deliver i item s)
unfolding deliver tally
deliver-Sound gone i item s r e h = record {
  valid = h.valid;
  preempted = h.preempted;
  evictions = h.evictions;
  balanced = λ p.
      omega
        (arith, h.balanced p, total-set (carried p) s.workers i idle (busy item) e, ap (held p) r);
  counted = omega (arith, h.counted, total-set runs s.workers i idle (busy item) e);
  standing = tt;
  shutting = h.shutting;
  drops = h.drops;
  gives_up = h.gives_up;
}
