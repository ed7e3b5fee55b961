-- ===== src/Program/Stop/Order.antt =====
-- The order of the shutdown in main of cmd/main.go.
use go_key_pool_system.Prelude.{
  ℕ, ◌≡◌, ◌≢◌, ◌∙◌, refl, subst, Bool, true, false, some, ◌⊎◌, inl, inr, [],
}
use go_key_pool_system.Prelude.Int.{ℤ}
use go_key_pool_system.Queue.Item.{Item}
use go_key_pool_system.Queue.Bounded.{queue_closed, new_queue, enqueue, shut}
use go_key_pool_system.Worker.Pool.{draining, Service, open_pool}
use go_key_pool_system.Worker.Pool.Accounts.{At}
use go_key_pool_system.Worker.Pool.Conserved.{IsSound, open_pool-Sound}
use go_key_pool_system.Program.Stop.{
  Stage, serving, refusing, stopped_server, cancelled_root, closing, returned, Process, open_server,
  MainStep, signalled, times_out, cancels_root, shuts_queue, closes_done, Reach,
}
use go_key_pool_system.Program.Stop.Standing.{
  is_cancelled, is_closed, is_stopped, in_service, Served, Standing, enqueue-Open, at_stage,
  Reach-Standing,
}

-- The order of the shutdown, by the stage of main. `answered` says what a handler that is left meets,
-- and `goes_on` that main is never stuck.
pub record InOrder (p : Process) : Type 0 where
  pub cancelled : p.service.cancelled ≡ is_cancelled p.stage
  pub closed : p.service.queue.closed ≡ is_closed p.stage
  pub stopped : p.service.queue.stopped ≡ is_stopped p.stage
  pub answered :
      (p.late ≡ true)
      ⊎ (p.handlers ≡ 0)
      ⊎ ((item : Item) → (enqueue p.service.queue item).0 ≢ some queue_closed)
  pub goes_on : (p.stage ≡ returned) ⊎ ((q : Process) × MainStep p q)
  pub sound : IsSound p.service

open_in_service : (stage : Stage) → in_service stage ≡ true → is_closed stage ≡ false
open_in_service serving e = refl
open_in_service refusing e = refl
open_in_service stopped_server e = refl
open_in_service cancelled_root e = refl
open_in_service closing e = absurd (cc e)
open_in_service returned e = absurd (cc e)

answered_by :
    (p : Process)
    → Standing p
    → Served p
    → (p.late ≡ true)
      ⊎ (p.handlers ≡ 0)
      ⊎ ((item : Item) → (enqueue p.service.queue item).0 ≢ some queue_closed)
answered_by p h (inr (inl late)) = inl late
answered_by p h (inr (inr quiet)) = inr (inl quiet)
answered_by p h (inl early) =
    let opened = h.closed ∙ open_in_service p.stage early in
    inr (
      inr (λ item. elim (enqueue-Open p.service.queue item).2 [
        | inl shut ↦ absurd (cc (opened, shut))
        | inr other ↦ other
      ]))

-- The drain, which holds the mutex, begins after Close only.
not_draining : (s : Service) → s.queue.stopped ≡ false → IsSound s → s.loop ≢ draining
not_draining s open_still (gone, h) drains =
    let (closed, stopped) = subst (λ l. At l s.queue) drains h.standing in cc (stopped, open_still)

main_goes_on :
    (p : Process) (stage : Stage)
    → p.stage ≡ stage
    → Standing p
    → (p.stage ≡ returned) ⊎ ((q : Process) × MainStep p q)
main_goes_on p serving at h = inr (_, signalled at)
main_goes_on p refusing at h = inr (_, times_out at)
main_goes_on p stopped_server at h = inr (_, cancels_root at)
main_goes_on p cancelled_root at h =
    inr
      (_, shuts_queue at (not_draining p.service (at_stage p cancelled_root at h).stopped h.sound))
main_goes_on p closing at h = inr (_, closes_done at)
main_goes_on p returned at h = inl at

-- From the start of the HTTP server beside a new pool and queue, whatever handlers, workers, timers
-- and the dispatch loop do between the steps of main: the context is cancelled after Shutdown has
-- returned and the queue closed after that, and both are by the end of main. Unless Shutdown met its
-- deadline, a handler that is left is not told by Enqueue that the queue is closed. Until its end main
-- has a step to take, and the accounts of the accepted items hold throughout.
pub Reach-InOrder :
    (F H : Type 0) (count warmup_period : ℕ) (max_size : ℤ) (preempt : Bool) (p : Process)
    → Reach F H (open_server (open_pool count warmup_period (new_queue max_size preempt))) p
    → InOrder p
unfolding open_server open_pool new_queue
Reach-InOrder F H count warmup_period max_size preempt p r =
    let start : Standing
        (open_server (open_pool count warmup_period (new_queue max_size preempt))) =
      record {
        cancelled = refl;
        closed = refl;
        stopped = refl;
        served = inl refl;
        sound = ([], open_pool-Sound count warmup_period max_size preempt);
      } in
    let h = Reach-Standing F H r start in
    record {
      cancelled = h.cancelled;
      closed = h.closed;
      stopped = h.stopped;
      answered = answered_by p h h.served;
      goes_on = main_goes_on p p.stage refl h;
      sound = h.sound;
    }
