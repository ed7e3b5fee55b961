-- ===== src/Worker/Pool/Measure.antt =====
-- The steps that the goroutines around internal/worker/pool.go have left once the context is cancelled
-- and the queue closed.
use go_key_pool_system.Prelude.{
  ℕ, zero, suc, ◌+◌, ◌*◌, ◌-◌, ◌<◌, ◌≤◌, ◌≡◌, refl, ap, Bool, true, false, some, List, [], ◌∷◌,
  arith, length, get_elem?, remove_at,
}
use go_key_pool_system.Prelude.Totals.{total, total-append, total-set}
use go_key_pool_system.Queue.Item.{Item}
use go_key_pool_system.Queue.Heap.{pop}
use go_key_pool_system.Queue.Heap.Remove.{pop-Removed}
use go_key_pool_system.Queue.Bounded.{Queue, queue_closed, enqueue, shut, signal}
use go_key_pool_system.Worker.ProcessItem.{process_item}
use go_key_pool_system.Worker.Pool.{
  Fate, settles, not_loaded, to_retry, vanishes, fate, Phase, idle, busy, ended, Loop, waiting,
  running, holding, draining, finished, Service, launch, take_item, deliver, drain_to, drop_item,
  complete, end_worker, requeue, abandon, submit, Act, launches, gives_up, wakes, takes, rests,
  delivers, stops, stops_holding, drains, drops, closes, completes, sees_cancel, sees_close,
  expires, abandons, shuts, signals, cancels, Run, here, submits, acts,
}
use go_key_pool_system.Worker.Pool.Conserved.{IsSound, Run-IsSound}

-- The steps that may be left for the loop, for a worker, and for all.
abbrev loop_steps : Loop → ℕ
loop_steps finished = 0
loop_steps draining = 1
loop_steps waiting = 2
loop_steps running = 3
loop_steps (holding item) = 6

abbrev phase_steps : Phase → ℕ
phase_steps ended = 0
phase_steps idle = 1
phase_steps (busy item) = 3

abbrev flag : Bool → ℕ
flag true = 1
flag false = 0

pub steps_left : Service → ℕ
steps_left s =
    loop_steps s.loop
    + 2 * flag s.queue.notified
    + (1 - flag s.queue.stopped)
    + 2 * s.to_start
    + total phase_steps s.workers
    + length s.delayed
    + 4 * length s.queue.pq

pub record IsShutting (s : Service) : Type 0 where
  pub cancelled : s.cancelled ≡ true
  pub closed : s.queue.closed ≡ true

enqueue_closed :
    (q : Queue) (item : Item) → q.closed ≡ true → enqueue q item ≡ (some queue_closed, q)
unfolding enqueue
enqueue_closed q item c = rw c

length-remove_at :
    (xs : List Item) (i : ℕ) (old : Item)
    → get_elem? xs i ≡ some old
    → length (remove_at xs i) + 1 ≡ length xs
length-remove_at [] i old e = absurd (cc e)
length-remove_at (x ∷ xs) zero old e = omega arith
length-remove_at (x ∷ xs) (suc i) old e = omega (arith, length-remove_at xs i old e)

-- A step keeps the two settings, and leaves fewer steps.
abbrev Falls : Service → Service → Type 0
Falls s t = IsShutting t × (steps_left t < steps_left s)

completes-Falls :
    (s : Service) (i : ℕ) (item : Item) (end : Fate)
    → get_elem? s.workers i ≡ some (busy item)
    → IsShutting s
    → Falls s (complete i item end s)
unfolding complete steps_left
completes-Falls s i item settles e h = (
  record { cancelled = h.cancelled; closed = h.closed },
  omega (arith, total-set phase_steps s.workers i (busy item) idle e),
)
completes-Falls s i item not_loaded e h = (
  record { cancelled = h.cancelled; closed = h.closed },
  omega (arith, total-set phase_steps s.workers i (busy item) idle e),
)
completes-Falls s i item to_retry e h = (
  record { cancelled = h.cancelled; closed = h.closed },
  omega (arith, total-set phase_steps s.workers i (busy item) idle e),
)
completes-Falls s i item vanishes e h = (
  record { cancelled = h.cancelled; closed = h.closed },
  omega (arith, total-set phase_steps s.workers i (busy item) idle e),
)

requeue-Falls :
    (s : Service) (j : ℕ) (item : Item)
    → get_elem? s.delayed j ≡ some item
    → IsShutting s
    → Falls s (requeue j item s)
unfolding requeue steps_left
requeue-Falls s j item e h = rw (enqueue_closed s.queue item h.closed) (
  record { cancelled = h.cancelled; closed = h.closed },
  omega (arith, length-remove_at s.delayed j item e),
)

module _ {F H : Type 0} where
  Act-Falls : {s t : Service} → Act F H s t → IsSound s → IsShutting s → Falls s t
  unfolding steps_left launch take_item deliver drain_to drop_item complete end_worker requeue
      abandon signal shut total
  Act-Falls {s} (launches left e) v h = (
    record { cancelled = h.cancelled; closed = h.closed },
    omega (arith, e, total-append phase_steps s.workers (idle ∷ [])),
  )
  Act-Falls {s} (gives_up c n l d) v h =
      (record { cancelled = h.cancelled; closed = h.closed }, omega arith)
  Act-Falls {s} (wakes w n) v h = (
    record { cancelled = h.cancelled; closed = h.closed },
    omega (arith, ap loop_steps w, ap flag n),
  )
  Act-Falls {s} (takes r l) (gone, v) h = (
    record { cancelled = h.cancelled; closed = h.closed },
    omega (arith, ap loop_steps r, (pop-Removed s.queue.pq v.valid l).size),
  )
  Act-Falls {s} (rests r e) v h =
      (record { cancelled = h.cancelled; closed = h.closed }, omega (arith, ap loop_steps r))
  Act-Falls {s} (delivers i item r e) v h = (
    record { cancelled = h.cancelled; closed = h.closed },
    omega (arith, ap loop_steps r, total-set phase_steps s.workers i idle (busy item) e),
  )
  Act-Falls {s} (stops w st) v h =
      (record { cancelled = h.cancelled; closed = h.closed }, omega (arith, ap loop_steps w))
  Act-Falls {s} (stops_holding item r st) v h =
      (record { cancelled = h.cancelled; closed = h.closed }, omega (arith, ap loop_steps r))
  Act-Falls {s} (drains i r l e) (gone, v) h =
      let item = (pop s.queue.pq).0 in
      (
        record { cancelled = h.cancelled; closed = h.closed },
        omega (
          arith,
          (pop-Removed s.queue.pq v.valid l).size,
          total-set phase_steps s.workers i idle (busy item) e,
        ),
      )
  Act-Falls {s} (drops r l) (gone, v) h = (
    record { cancelled = h.cancelled; closed = h.closed },
    omega (arith, (pop-Removed s.queue.pq v.valid l).size),
  )
  Act-Falls {s} (closes r e) v h =
      (record { cancelled = h.cancelled; closed = h.closed }, omega (arith, ap loop_steps r))
  Act-Falls {s} (completes w i item now later row m e own) v h =
      completes-Falls s i item (fate item.entry.request_id row (process_item w now later row m)) e h
  Act-Falls {s} (sees_cancel i e c) v h = (
    record { cancelled = h.cancelled; closed = h.closed },
    omega (arith, total-set phase_steps s.workers i idle ended e),
  )
  Act-Falls {s} (sees_close i e f) v h = (
    record { cancelled = h.cancelled; closed = h.closed },
    omega (arith, total-set phase_steps s.workers i idle ended e),
  )
  Act-Falls {s} (expires j item e d) v h = requeue-Falls s j item e h
  Act-Falls {s} (abandons j item e c) v h = (
    record { cancelled = h.cancelled; closed = h.closed },
    omega (arith, length-remove_at s.delayed j item e),
  )
  Act-Falls {s} (shuts o d) v h = absurd (cc (o, h.closed))
  Act-Falls {s} (signals c o) v h =
      (record { cancelled = h.cancelled; closed = h.closed }, omega (arith, ap flag o))
  Act-Falls {s} (cancels o) v h = absurd (cc (o, h.cancelled))

refused-submit :
    (s : Service) (item : Item)
    → IsShutting s
    → IsShutting (submit item s) × (steps_left (submit item s) ≡ steps_left s)
unfolding submit steps_left
refused-submit s item h =
    rw (enqueue_closed s.queue item h.closed)
      (record { cancelled = h.cancelled; closed = h.closed }, refl)

module _ {F H : Type 0} where
  pub Run-Falls :
      {s t : Service} {n : ℕ}
      → Run F H s n t
      → IsSound s
      → IsShutting s
      → IsShutting t × (n + steps_left t ≤ steps_left s)
  Run-Falls here v h = (h, omega arith)
  Run-Falls (submits {t = u} item d r) v h =
      let (shutting, bound) = Run-Falls r v h in
      let (kept, same) = refused-submit u item shutting in (kept, omega (arith, bound, same))
  Run-Falls (acts r a) v h =
      let (shutting, bound) = Run-Falls r v h in
      let (kept, falls) = Act-Falls a (Run-IsSound r v) shutting in
      (kept, omega (arith, bound, falls))
