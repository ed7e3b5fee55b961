-- ===== src/Queue/Dispatch/Delivery.antt =====
-- The runs of the loop of internal/queue/queue.go beside its callers.
use go_key_pool_system.Prelude.{
  ℕ, ◌+◌, ◌<◌, ◌≡◌, refl, Bool, true, false, List, [], ◌∷◌, ◌++◌, arith, length, ◌⊎◌, inl, inr, sym,
  subst, ap,
}
use go_key_pool_system.Prelude.Int.{ℤ}
use go_key_pool_system.Queue.Item.{Entry, Item, Le}
use go_key_pool_system.Queue.Heap.{pop}
use go_key_pool_system.Queue.Heap.Swap.{entries, entry_at}
use go_key_pool_system.Queue.Heap.Order.{root_least}
use go_key_pool_system.Queue.Heap.Back.{IsValid}
use go_key_pool_system.Queue.Heap.Remove.{pop-Removed}
use go_key_pool_system.Queue.Bounded.{Queue, new_queue, shut, signal}
use go_key_pool_system.Queue.Dispatch.{
  drain_remaining, Loop, waiting, running, holding, finished, System, take_item, finish, start,
  Step, submits, shuts, signals, wakes, takes, rests, delivers, stops, stops_holding, Reach, here,
  next,
}
use go_key_pool_system.Queue.Dispatch.Accounts.{
  tally, in_hand, tally-append, pop-tally, drain-tally, At, IsSound, submit-IsSound,
}

take_item-IsSound :
    (s : System) → s.loop ≡ running → 0 < length s.queue.pq → IsSound s → IsSound (take_item s)
unfolding take_item tally
take_item-IsSound s r l v =
    let k = pop-Removed s.queue.pq v.valid l in
    record {
      valid = k.valid;
      gone = v.gone;
      preempted = v.preempted;
      balanced = λ p.
          omega (
            arith,
            v.balanced p,
            pop-tally p s.queue.pq v.valid l,
            ap (λ x. tally p (in_hand x)) r,
          );
      bounded = elim v.bounded [
        | inl b ↦ inl (omega (arith, k.size, b))
        | inr e ↦ absurd (omega (arith, e, l))
      ];
      shutting = v.shutting;
      losing = v.losing;
      standing = tt;
    }

delivers-IsSound :
    (s : System) (item : Item)
    → s.loop ≡ holding item
    → IsSound s
    → IsSound (record s { loop = running; delivered = item.entry ∷ s.delivered })
unfolding tally
delivers-IsSound s item h v = record {
  valid = v.valid;
  gone = v.gone;
  preempted = v.preempted;
  balanced = λ p. omega (arith, v.balanced p, ap (λ x. tally p (in_hand x)) h);
  bounded = v.bounded;
  shutting = v.shutting;
  losing = v.losing;
  standing = tt;
}

no_entries : (p : Entry → Bool) → tally p [] ≡ 0
unfolding tally
no_entries p = refl

drain_remaining-tally :
    (p : Entry → Bool) (pq : List Item) (ready : ℕ → Bool)
    → IsValid pq
    → ((drain_remaining pq ready).left ≡ [])
      × (tally p (entries pq)
          ≡ tally p (entries (drain_remaining pq ready).sent)
            + tally p (entries (drain_remaining pq ready).dropped))
unfolding drain_remaining
drain_remaining-tally p pq ready v = drain-tally p (length pq) pq ready (omega arith) v

finish-balanced :
    (p : Entry → Bool) (s : System) (ready : ℕ → Bool) (held : List Entry)
    → in_hand s.loop ≡ held
    → (v : IsSound s)
    → tally p s.accepted
      ≡ tally p (entries (drain_remaining s.queue.pq ready).sent ++ s.delivered)
        + tally p (entries (drain_remaining s.queue.pq ready).dropped ++ held ++ s.lost)
        + 0
        + 0
        + tally p v.gone
finish-balanced p s ready held h v =
    let d = drain_remaining s.queue.pq ready in
    omega (
      arith,
      v.balanced p,
      (drain_remaining-tally p s.queue.pq ready v.valid).1,
      ap (tally p) h,
      tally-append p (entries d.sent) s.delivered,
      tally-append p (entries d.dropped ++ held) s.lost,
      tally-append p (entries d.dropped) held,
    )

finish-IsSound :
    (s : System) (ready : ℕ → Bool) (held : List Entry)
    → in_hand s.loop ≡ held
    → s.queue.stopped ≡ true
    → IsSound s
    → IsSound (finish ready held s)
unfolding finish
finish-IsSound s ready held h stopped v =
    let counts = λ (p : Entry → Bool). drain_remaining-tally p s.queue.pq ready v.valid in
    let left = (counts (λ e. true)).0 in
    record {
      valid =
          rw left
            record { heap = λ c a b. absurd (omega arith); indexed = λ c a. absurd (omega arith) };
      gone = v.gone;
      preempted = v.preempted;
      balanced = λ p. rw (left, no_entries p) (finish-balanced p s ready held h v);
      bounded = inr (rw left refl);
      shutting = v.shutting;
      losing = inr stopped;
      standing = (rw left refl, elim v.shutting [ inl e ↦ absurd (cc (e, stopped)) | inr c ↦ c ]);
    }

At-shut : (l : Loop) (q : Queue) → At l q → At l (shut q)
unfolding shut
At-shut waiting q a = a
At-shut finished q a = (a.0, refl)
At-shut running q a = tt
At-shut (holding item) q a = tt

At-signal : (l : Loop) (q : Queue) → At l q → At l (signal q)
unfolding signal
At-signal waiting q a = a
At-signal finished q a = a
At-signal running q a = tt
At-signal (holding item) q a = tt

keep-IsSound :
    (s : System) (q : Queue) (l : Loop)
    → IsSound s
    → q.pq ≡ s.queue.pq
    → q.preempt ≡ s.queue.preempt
    → q.max_size ≡ s.queue.max_size
    → in_hand l ≡ in_hand s.loop
    → (q.stopped ≡ false) ⊎ (q.closed ≡ true)
    → (s.queue.stopped ≡ true → q.stopped ≡ true)
    → At l q
    → IsSound (record s { queue = q; loop = l })
keep-IsSound s q l v pq pre max hand shutting still a = record {
  valid = rw pq v.valid;
  gone = v.gone;
  preempted = rw pre v.preempted;
  balanced = λ p. rw (pq, hand) (v.balanced p);
  bounded = rw (pq, max) v.bounded;
  shutting = shutting;
  losing = elim v.losing [ inl e ↦ inl e | inr st ↦ inr (still st) ];
  standing = a;
}

Step-IsSound : {s t : System} → Step s t → IsSound s → IsSound t
unfolding shut signal
Step-IsSound {s} (submits item) v = submit-IsSound s item v
Step-IsSound {s} shuts v =
    keep-IsSound s (shut s.queue) s.loop v refl refl refl refl (inr refl) (λ e. e)
      (At-shut s.loop s.queue v.standing)
Step-IsSound {s} (signals c) v =
    keep-IsSound s (signal s.queue) s.loop v refl refl refl refl (inr c) (λ e. refl)
      (At-signal s.loop s.queue v.standing)
Step-IsSound {s} (wakes w n) v =
    keep-IsSound s (record s.queue { notified = false }) running v refl refl refl
      (ap in_hand (sym w)) v.shutting (λ e. e) tt
Step-IsSound {s} (takes r l) v = take_item-IsSound s r l v
Step-IsSound {s} (rests r e) v =
    keep-IsSound s s.queue waiting v refl refl refl (ap in_hand (sym r)) v.shutting (λ e. e) (inl e)
Step-IsSound {s} (delivers item h) v = delivers-IsSound s item h v
Step-IsSound {s} (stops ready w st) v = finish-IsSound s ready [] (ap in_hand w) st v
Step-IsSound {s} (stops_holding item ready h st) v =
    finish-IsSound s ready (item.entry ∷ []) (ap in_hand h) st v

-- From a sound system, whatever the callers and the loop do and in whatever order, the system stays
-- sound. That is: the heap is valid and within its bound; each accepted item has reached a worker, is
-- in the loop's hand, is in the heap, was lost, or was preempted, which needs the setting; nothing is
-- lost before Close has closed `done`; a loop that waits has a token or an empty heap; and once it has finished the heap is
-- empty and the queue closed.
pub Reach-IsSound : {s t : System} → IsSound s → Reach s t → IsSound t
Reach-IsSound v here = v
Reach-IsSound v (next r st) = Step-IsSound st (Reach-IsSound v r)

-- A new queue with its loop waiting, and nothing accepted so far, is sound.
pub start-IsSound : (max_size : ℤ) (preempt : Bool) → IsSound (start (new_queue max_size preempt))
unfolding start new_queue tally
start-IsSound max_size preempt = record {
  valid = record { heap = λ c a b. absurd (omega arith); indexed = λ c a. absurd (omega arith) };
  gone = [];
  preempted = inr refl;
  balanced = λ p. refl;
  bounded = inr refl;
  shutting = inl refl;
  losing = inl refl;
  standing = inl refl;
}

-- The item that the loop takes is one that no other in the heap should precede.
pub take_item_first :
    (s : System) (c : ℕ)
    → IsValid s.queue.pq
    → c < length s.queue.pq
    → (item : Item) × ((take_item s).loop ≡ holding item) × Le item.entry (entry_at s.queue.pq c)
unfolding take_item
take_item_first s c v l =
    let k = pop-Removed s.queue.pq v (omega arith) in
    (
      (pop s.queue.pq).0,
      refl,
      subst (λ e. Le e (entry_at s.queue.pq c)) (sym k.taken) (root_least _ s.queue.pq c v.heap l),
    )
