-- ===== src/Worker/Pool/Conserved.antt =====
-- Every run of the service around internal/worker/pool.go keeps account of its items.
use go_key_pool_system.Prelude.{
  ℕ, ◌≡◌, ◌≢◌, refl, sym, ap, subst, Bool, true, false, List, [], ◌∷◌, arith, ◌⊎◌, inl, inr,
}
use go_key_pool_system.Prelude.Int.{ℤ}
use go_key_pool_system.Prelude.Totals.{total}
use go_key_pool_system.Queue.Item.{Entry, Item}
use go_key_pool_system.Queue.Bounded.{Queue, new_queue, shut, signal}
use go_key_pool_system.Queue.Dispatch.Accounts.{tally}
use go_key_pool_system.Worker.Pool.{
  Loop, waiting, running, holding, draining, finished, Service, open_pool, Act, launches, gives_up,
  wakes, takes, rests, delivers, stops, stops_holding, drains, drops, closes, completes,
  sees_cancel, sees_close, expires, abandons, shuts, signals, cancels, Run, here, submits, acts,
}
use go_key_pool_system.Worker.Pool.Accounts.{
  held, At, Sound, launch-Sound, take_item-Sound, deliver-Sound,
}
use go_key_pool_system.Worker.Pool.Moves.{
  drain_to-Sound, drop_item-Sound, complete-Sound, process_item-fate, end_worker-Sound,
  abandon-Sound,
}
use go_key_pool_system.Worker.Pool.Entering.{submit-Sound, requeue-Sound}

-- Some entries were preempted, and with them the service is sound.
abbrev pub IsSound : Service → Type 0
IsSound s = (gone : List Entry) × Sound gone s

-- The loop moves on with the same item in its hand, over a queue with the same items.
turned-Sound :
    (gone : List Entry) (s : Service) (q : Queue) (l : Loop)
    → Sound gone s
    → q.pq ≡ s.queue.pq
    → q.preempt ≡ s.queue.preempt
    → ((p : Entry → Bool) → held p l ≡ held p s.loop)
    → (q.stopped ≡ false) ⊎ (q.closed ≡ true)
    → (s.queue.stopped ≡ true → q.stopped ≡ true)
    → At l q
    → Sound gone (record s { queue = q; loop = l })
turned-Sound gone s q l h pq pre hand shutting still at = record {
  valid = rw pq h.valid;
  preempted = rw pre h.preempted;
  evictions = h.evictions;
  balanced = λ p. rw (pq, hand p) (h.balanced p);
  counted = h.counted;
  standing = at;
  shutting = shutting;
  drops = elim h.drops [ inl e ↦ inl e | inr e ↦ inr (still e) ];
  gives_up = h.gives_up;
}

stops_holding-Sound :
    (gone : List Entry) (s : Service) (item : Item)
    → s.loop ≡ holding item
    → s.queue.stopped ≡ true
    → Sound gone s
    → Sound gone (record s { loop = draining; dropped = item.entry ∷ s.dropped })
unfolding tally
stops_holding-Sound gone s item r st h = record {
  valid = h.valid;
  preempted = h.preempted;
  evictions = h.evictions;
  balanced = λ p. omega (arith, h.balanced p, ap (held p) r);
  counted = h.counted;
  standing = (elim h.shutting [ inl e ↦ absurd (cc (e, st)) | inr c ↦ c ], st);
  shutting = h.shutting;
  drops = inr st;
  gives_up = h.gives_up;
}

-- A change of Start's count or of the context.
beside-Sound :
    (gone : List Entry) (s : Service) (left : ℕ) (c : Bool)
    → (s.abandoned ≡ []) ⊎ (c ≡ true)
    → Sound gone s
    → Sound gone (record s { to_start = left; cancelled = c })
beside-Sound gone s left c given h = record {
  valid = h.valid;
  preempted = h.preempted;
  evictions = h.evictions;
  balanced = h.balanced;
  counted = h.counted;
  standing = h.standing;
  shutting = h.shutting;
  drops = h.drops;
  gives_up = given;
}

closed_when_stopped :
    (q : Queue) → (q.stopped ≡ false) ⊎ (q.closed ≡ true) → q.stopped ≡ true → q.closed ≡ true
closed_when_stopped q (inl e) st = absurd (cc (e, st))
closed_when_stopped q (inr c) st = c

At-shut : (l : Loop) (q : Queue) → l ≢ draining → At l q → At l (shut q)
unfolding shut
At-shut waiting q d a = a
At-shut finished q d a = (a.0, refl)
At-shut running q d a = tt
At-shut draining q d a = absurd (d refl)
At-shut (holding item) q d a = tt

At-signal : (l : Loop) (q : Queue) → At l q → At l (signal q)
unfolding signal
At-signal waiting q a = a
At-signal finished q a = a
At-signal running q a = tt
At-signal draining q a = (a.0, refl)
At-signal (holding item) q a = tt

module _ {F H : Type 0} where
  Act-IsSound : {s t : Service} → Act F H s t → IsSound s → IsSound t
  unfolding shut signal
  Act-IsSound {s} (launches left e) (gone, h) = (gone, launch-Sound gone left s h)
  Act-IsSound {s} (gives_up c n l d) (gone, h) =
      (gone, beside-Sound gone s 0 s.cancelled h.gives_up h)
  Act-IsSound {s} (wakes w n) (gone, h) = (
    gone,
    turned-Sound gone s (record s.queue { notified = false }) running h refl refl
        (λ p. ap (held p) (sym w)) h.shutting (λ e. e) tt,
  )
  Act-IsSound {s} (takes r l) (gone, h) = (gone, take_item-Sound gone s r l h)
  Act-IsSound {s} (rests r e) (gone, h) = (
    gone,
    turned-Sound gone s s.queue waiting h refl refl (λ p. ap (held p) (sym r)) h.shutting (λ e. e)
        (inl e),
  )
  Act-IsSound {s} (delivers i item r e) (gone, h) = (gone, deliver-Sound gone i item s r e h)
  Act-IsSound {s} (stops w st) (gone, h) = (
    gone,
    turned-Sound gone s s.queue draining h refl refl (λ p. ap (held p) (sym w)) h.shutting (λ e. e)
        (closed_when_stopped s.queue h.shutting st, st),
  )
  Act-IsSound {s} (stops_holding item r st) (gone, h) =
      (gone, stops_holding-Sound gone s item r st h)
  Act-IsSound {s} (drains i r l e) (gone, h) = (gone, drain_to-Sound gone i s r l e h)
  Act-IsSound {s} (drops r l) (gone, h) = (gone, drop_item-Sound gone s r l h)
  Act-IsSound {s} (closes r e) (gone, h) = (
    gone,
    turned-Sound gone s s.queue finished h refl refl (λ p. ap (held p) (sym r)) h.shutting (λ e. e)
        (e, (subst (λ l. At l s.queue) r h.standing).0),
  )
  Act-IsSound {s} (completes w i item now later row m e own) (gone, h) =
      (gone, complete-Sound gone i item _ s (process_item-fate w now later row m item own) e h)
  Act-IsSound {s} (sees_cancel i e c) (gone, h) = (gone, end_worker-Sound gone i s e h)
  Act-IsSound {s} (sees_close i e f) (gone, h) = (gone, end_worker-Sound gone i s e h)
  Act-IsSound {s} (expires j item e d) (gone, h) = requeue-Sound gone s item j e h
  Act-IsSound {s} (abandons j item e c) (gone, h) = (gone, abandon-Sound gone j item s e c h)
  Act-IsSound {s} (shuts o d) (gone, h) = (
    gone,
    turned-Sound gone s (shut s.queue) s.loop h refl refl (λ p. refl) (inr refl) (λ e. e)
        (At-shut s.loop s.queue d h.standing),
  )
  Act-IsSound {s} (signals c o) (gone, h) = (
    gone,
    turned-Sound gone s (signal s.queue) s.loop h refl refl (λ p. refl) (inr c) (λ e. refl)
        (At-signal s.loop s.queue h.standing),
  )
  Act-IsSound {s} (cancels o) (gone, h) = (gone, beside-Sound gone s s.to_start true (inr refl) h)

  pub Run-IsSound : {s t : Service} {n : ℕ} → Run F H s n t → IsSound s → IsSound t
  Run-IsSound here v = v
  Run-IsSound (submits item d r) v = let (gone, h) = Run-IsSound r v in submit-Sound gone _ item h
  Run-IsSound (acts r a) v = Act-IsSound a (Run-IsSound r v)

pub open_pool-Sound :
    (count warmup_period : ℕ) (max_size : ℤ) (preempt : Bool)
    → Sound [] (open_pool count warmup_period (new_queue max_size preempt))
unfolding open_pool new_queue tally total
open_pool-Sound count warmup_period max_size preempt = record {
  valid = record { heap = λ c a b. absurd (omega arith); indexed = λ c a. absurd (omega arith) };
  preempted = inr refl;
  evictions = refl;
  balanced = λ p. refl;
  counted = refl;
  standing = inl refl;
  shutting = inl refl;
  drops = inl refl;
  gives_up = inl refl;
}

-- From the start of the pool beside a new queue, whatever callers, workers, timers, the dispatch
-- loop, Close and the cancellation do, and in whatever order: each item that was accepted is settled,
-- that is, processItem found its request settled or wrote its final result; or had a row that
-- processItem could not load; was refused by Enqueue after a delay, was given up, was dropped, was
-- preempted, is in the hand of the loop or of a worker, waits for a timer, or is in the queue; and is
-- at one such place only. Items are given up only after the cancellation, dropped only after Close,
-- and preempted only with the setting, and as often as Enqueue took an item in while the queue was
-- full. The WaitGroup counts the workers that have not returned, and a loop that waits has a token or
-- an empty queue.
pub Run-conserves :
    (F H : Type 0) (count warmup_period : ℕ) (max_size : ℤ) (preempt : Bool) (n : ℕ) (s : Service)
    → Run F H (open_pool count warmup_period (new_queue max_size preempt)) n s
    → IsSound s
Run-conserves F H count warmup_period max_size preempt n s r =
    Run-IsSound r ([], open_pool-Sound count warmup_period max_size preempt)
