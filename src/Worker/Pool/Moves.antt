-- ===== src/Worker/Pool/Moves.antt =====
-- The steps of internal/worker/pool.go's service that end the way of an item, or send it round again.
use go_key_pool_system.Prelude.{
  ℕ, ◌+◌, ◌<◌, ◌≡◌, ◌≢◌, refl, subst, true, Option-cases, inl, if◌then◌else◌, Option, none, some,
  List, arith, length, get_elem?, inr,
}
use go_key_pool_system.Prelude.Totals.{total, total-set, total-remove_at}
use go_key_pool_system.Queue.Item.{Entry, Item}
use go_key_pool_system.Queue.Heap.{pop}
use go_key_pool_system.Queue.Heap.Remove.{pop-Removed}
use go_key_pool_system.Queue.Dispatch.Accounts.{tally, pop-tally}
use go_key_pool_system.Db.Adapter.{Request}
use go_key_pool_system.Keypool.Manager.{Manager}
use go_key_pool_system.Worker.ProcessItem.{Worker, Processed, process_item, is_settled}
use go_key_pool_system.Worker.ProcessItem.Settled.{results, retries, process_item_once}
use go_key_pool_system.Worker.Pool.{
  Fate, settles, not_loaded, to_retry, vanishes, fate, IsRowOf, idle, busy, ended, draining,
  Service, drain_to, drop_item, complete, end_worker, abandon,
}
use go_key_pool_system.Worker.Pool.Accounts.{carried, one, runs, At, Sound}

pub drain_to-Sound :
    (gone : List Entry) (i : ℕ) (s : Service)
    → s.loop ≡ draining
    → 0 < length s.queue.pq
    → get_elem? s.workers i ≡ some idle
    → Sound gone s
    → Sound gone (drain_to i s)
unfolding drain_to tally
drain_to-Sound gone i s r l e h =
    let item = (pop s.queue.pq).0 in
    record {
      valid = (pop-Removed s.queue.pq h.valid l).valid;
      preempted = h.preempted;
      evictions = h.evictions;
      balanced = λ p. omega (
        arith,
        h.balanced p,
        pop-tally p s.queue.pq h.valid l,
        total-set (carried p) s.workers i idle (busy item) e,
      );
      counted = omega (arith, h.counted, total-set runs s.workers i idle (busy item) e);
      standing = rw r (subst (λ l. At l s.queue) r h.standing);
      shutting = h.shutting;
      drops = h.drops;
      gives_up = h.gives_up;
    }

pub drop_item-Sound :
    (gone : List Entry) (s : Service)
    → s.loop ≡ draining
    → 0 < length s.queue.pq
    → Sound gone s
    → Sound gone (drop_item s)
unfolding drop_item tally
drop_item-Sound gone s r l h = record {
  valid = (pop-Removed s.queue.pq h.valid l).valid;
  preempted = h.preempted;
  evictions = h.evictions;
  balanced = λ p. omega (arith, h.balanced p, pop-tally p s.queue.pq h.valid l);
  counted = h.counted;
  standing = rw r (subst (λ l. At l s.queue) r h.standing);
  shutting = h.shutting;
  drops = inr (subst (λ l. At l s.queue) r h.standing).1;
  gives_up = h.gives_up;
}

accounted-fate :
    {H : Type 0} (req : Request) (done : Processed H)
    → results req.id done.writes + retries done.requeue ≡ (if is_settled req.status then 0 else 1)
    → fate req.id (some (some req)) done ≢ vanishes
unfolding fate
accounted-fate req done once gone = elim (Option-cases done.requeue) [
  | inr (attempt, e) ↦ cc (rw e at gone)
  | inl e ↦ ground (arith, once, rw e at gone, e)
]

-- The fate of an item that processItem takes on is never to vanish.
pub process_item-fate :
    {F H : Type 0} (w : Worker F H) (now later : ℕ) (row : Option (Option Request)) (m : Manager)
    (item : Item)
    → IsRowOf item row
    → fate item.entry.request_id row (process_item w now later row m) ≢ vanishes
unfolding fate process_item
process_item-fate w now later none m item own = λ e. cc e
process_item-fate w now later (some none) m item own = λ e. cc e
process_item-fate w now later (some (some req)) m item own =
    subst
      (λ id. fate id (some (some req)) (process_item w now later (some (some req)) m) ≢ vanishes)
      own
      (accounted-fate req (process_item w now later (some (some req)) m)
        (process_item_once w now later req m))

pub complete-Sound :
    (gone : List Entry) (i : ℕ) (item : Item) (end : Fate) (s : Service)
    → end ≢ vanishes
    → get_elem? s.workers i ≡ some (busy item)
    → Sound gone s
    → Sound gone (complete i item end s)
unfolding complete tally total
complete-Sound gone i item settles s kept e h = record {
  valid = h.valid;
  preempted = h.preempted;
  evictions = h.evictions;
  balanced = λ p. omega (arith, h.balanced p, total-set (carried p) s.workers i (busy item) idle e);
  counted = omega (arith, h.counted, total-set runs s.workers i (busy item) idle e);
  standing = h.standing;
  shutting = h.shutting;
  drops = h.drops;
  gives_up = h.gives_up;
}
complete-Sound gone i item not_loaded s kept e h = record {
  valid = h.valid;
  preempted = h.preempted;
  evictions = h.evictions;
  balanced = λ p. omega (arith, h.balanced p, total-set (carried p) s.workers i (busy item) idle e);
  counted = omega (arith, h.counted, total-set runs s.workers i (busy item) idle e);
  standing = h.standing;
  shutting = h.shutting;
  drops = h.drops;
  gives_up = h.gives_up;
}
complete-Sound gone i item to_retry s kept e h = record {
  valid = h.valid;
  preempted = h.preempted;
  evictions = h.evictions;
  balanced = λ p. omega (arith, h.balanced p, total-set (carried p) s.workers i (busy item) idle e);
  counted = omega (arith, h.counted, total-set runs s.workers i (busy item) idle e);
  standing = h.standing;
  shutting = h.shutting;
  drops = h.drops;
  gives_up = h.gives_up;
}
complete-Sound gone i item vanishes s kept e h = absurd (kept refl)

pub end_worker-Sound :
    (gone : List Entry) (i : ℕ) (s : Service)
    → get_elem? s.workers i ≡ some idle
    → Sound gone s
    → Sound gone (end_worker i s)
unfolding end_worker
end_worker-Sound gone i s e h = record {
  valid = h.valid;
  preempted = h.preempted;
  evictions = h.evictions;
  balanced = λ p. omega (arith, h.balanced p, total-set (carried p) s.workers i idle ended e);
  counted = omega (arith, h.counted, total-set runs s.workers i idle ended e);
  standing = h.standing;
  shutting = h.shutting;
  drops = h.drops;
  gives_up = h.gives_up;
}

pub abandon-Sound :
    (gone : List Entry) (j : ℕ) (item : Item) (s : Service)
    → get_elem? s.delayed j ≡ some item
    → s.cancelled ≡ true
    → Sound gone s
    → Sound gone (abandon j item s)
unfolding abandon tally
abandon-Sound gone j item s e c h = record {
  valid = h.valid;
  preempted = h.preempted;
  evictions = h.evictions;
  balanced = λ p. omega (arith, h.balanced p, total-remove_at (one p) s.delayed j item e);
  counted = h.counted;
  standing = h.standing;
  shutting = h.shutting;
  drops = h.drops;
  gives_up = inr c;
}
