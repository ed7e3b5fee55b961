-- ===== src/Worker/Pool/Shutdown.antt =====
-- The shutdown of the service around internal/worker/pool.go: once the context is cancelled and the
-- queue closed, its goroutines end.
use go_key_pool_system.Prelude.{
  ℕ, ◌+◌, ◌≡◌, refl, ap, subst, Bool, true, some, List, [], ◌∷◌, arith, length, get_elem?, ◌⊎◌,
}
use go_key_pool_system.Prelude.Totals.{total}
use go_key_pool_system.Queue.Item.{Entry, Item}
use go_key_pool_system.Worker.ProcessItem.{Worker}
use go_key_pool_system.Keypool.Manager.{Manager}
use go_key_pool_system.Queue.Heap.Swap.{entries}
use go_key_pool_system.Queue.Dispatch.Accounts.{tally}
use go_key_pool_system.Worker.Pool.{Phase, idle, busy, ended, finished, Service, Act}
use go_key_pool_system.Worker.Pool.Accounts.{Sound, At, runs, held, carried, one}

-- All goroutines have ended, no timer is left, and every accepted item is settled, could not be
-- loaded, or has been given up somewhere; those preempted, `gone`, are as many as Enqueue took in while
-- the queue was full.
pub record IsDown (s : Service) : Type 0 where
  pub finished_loop : s.loop ≡ finished
  pub launched : s.to_start ≡ 0
  pub waited : s.wait_group ≡ 0
  pub no_timers : s.delayed ≡ []
  pub gone : List Entry
  pub preempted : (s.queue.preempt ≡ true) ⊎ (gone ≡ [])
  pub evictions : length gone ≡ s.preemptions
  pub balanced :
      (p : Entry → Bool)
      → tally p s.accepted
        ≡ tally p s.settled
          + tally p s.unloaded
          + tally p s.refused
          + tally p s.abandoned
          + tally p s.dropped
          + tally p gone

-- A worker that has not returned.
data Remains (ws : List Phase) : Type 0 where
  nobody : total runs ws ≡ 0 → Remains ws
  free : (i : ℕ) → get_elem? ws i ≡ some idle → Remains ws
  working : (i : ℕ) (item : Item) → get_elem? ws i ≡ some (busy item) → Remains ws

-- Workers that have returned carry nothing.
carried-le : (p : Entry → Bool) (ws : List Phase) → total runs ws ≡ 0 → total (carried p) ws ≡ 0
unfolding total
carried-le p [] e = refl
carried-le p (idle ∷ ws) e = absurd (omega (arith, e))
carried-le p (busy item ∷ ws) e = absurd (omega (arith, e))
carried-le p (ended ∷ ws) e = omega (arith, carried-le p ws (omega (arith, e)))

none_queued : (p : Entry → Bool) (pq : List Item) → length pq ≡ 0 → tally p (entries pq) ≡ 0
unfolding tally
none_queued p [] e = refl
none_queued p (x ∷ pq) e = absurd (omega (arith, e))

module _ {F H : Type 0} (w : Worker F H) (m : Manager) where
  abbrev pub Goes : Service → Type 0
  Goes s = IsDown s ⊎ ((t : Service) × Act F H s t)

  -- The last goroutines: workers, and timers.
  down :
      (s : Service) (gone : List Entry)
      → Sound gone s
      → s.loop ≡ finished
      → s.to_start ≡ 0
      → total runs s.workers ≡ 0
      → s.delayed ≡ []
      → IsDown s
  unfolding total
  down s gone v f launched quiet empty =
      let no_items = (subst (λ l. At l s.queue) f v.standing).0 in
      record {
        finished_loop = f;
        launched = launched;
        waited = omega (arith, v.counted, quiet);
        no_timers = empty;
        gone = gone;
        preempted = v.preempted;
        evictions = v.evictions;
        balanced = λ p. omega (
          arith,
          v.balanced p,
          ap (held p) f,
          ap (total (one p)) empty,
          carried-le p s.workers quiet,
          none_queued p s.queue.pq no_items,
        );
      }
