-- ===== src/Program/Stop.antt =====
-- The end of main of cmd/main.go, from the start of the HTTP server on, beside the goroutines of
-- Worker.Pool. Server.Shutdown of net/http refuses new requests at once and returns when no handler
-- runs, or with an error at its deadline, while the handlers run on. A handler is counted only, and
-- calls Enqueue. With the return of main the process ends. A server that cannot listen, which ends the
-- process too, and the logger are left out.
pub mod Standing
pub mod Order
use go_key_pool_system.Prelude.{ℕ, suc, ◌+◌, ◌<◌, ◌≡◌, ◌≢◌, Bool, true, false}
use go_key_pool_system.Queue.Item.{Item}
use go_key_pool_system.Queue.Bounded.{shut, signal}
use go_key_pool_system.Worker.Pool.{draining, Service, submit, Act}

-- Where main stands: before the signal, in Shutdown, before rootCancel, before Close, between the two
-- writes of Close, and at its end.
pub data Stage : Type 0 where
  serving : Stage
  refusing : Stage
  stopped_server : Stage
  cancelled_root : Stage
  closing : Stage
  returned : Stage

-- `late` says that Shutdown returned at its deadline.
pub record Process : Type 0 where
  pub stage : Stage
  pub handlers : ℕ
  pub late : Bool
  pub service : Service

unfoldable pub open_server : Service → Process
open_server s = record { stage = serving; handlers = 0; late = false; service = s }

unfoldable pub shut_down : Bool → Process → Process
shut_down late p = record p { stage = stopped_server; late = late }

unfoldable pub root_cancel : Process → Process
root_cancel p = record p { stage = cancelled_root; service = record p.service { cancelled = true } }

unfoldable pub shut_queue : Process → Process
shut_queue p = record p {
  stage = closing;
  service = record p.service { queue = shut p.service.queue };
}

unfoldable pub close_done : Process → Process
close_done p = record p {
  stage = returned;
  service = record p.service { queue = signal p.service.queue };
}

-- A step of main.
pub data MainStep (p : Process) : Process → Type 0 where
  signalled : p.stage ≡ serving → MainStep p (record p { stage = refusing })
  drained : p.stage ≡ refusing → p.handlers ≡ 0 → MainStep p (shut_down false p)
  times_out : p.stage ≡ refusing → MainStep p (shut_down true p)
  cancels_root : p.stage ≡ stopped_server → MainStep p (root_cancel p)
  shuts_queue : p.stage ≡ cancelled_root → p.service.loop ≢ draining → MainStep p (shut_queue p)
  closes_done : p.stage ≡ closing → MainStep p (close_done p)

-- A step that neither cancels the context nor closes the queue.
pub record Leaves (s t : Service) : Type 0 where
  pub cancelled : t.cancelled ≡ s.cancelled
  pub closed : t.queue.closed ≡ s.queue.closed
  pub stopped : t.queue.stopped ≡ s.queue.stopped

module _ (F H : Type 0) where
  -- A step of main, of a handler, or of a goroutine beside them.
  pub data Step (p : Process) : Process → Type 0 where
    main : {q : Process} → MainStep p q → Step p q
    accepts : p.stage ≡ serving → Step p (record p { handlers = p.handlers + 1 })
    enqueues :
        (item : Item)
        → p.stage ≢ returned
        → 0 < p.handlers
        → p.service.loop ≢ draining
        → Step p (record p { service = submit item p.service })
    answers :
        (left : ℕ)
        → p.stage ≢ returned
        → p.handlers ≡ suc left
        → Step p (record p { handlers = left })
    works :
        {t : Service}
        → p.stage ≢ returned
        → Act F H p.service t
        → Leaves p.service t
        → Step p (record p { service = t })

  pub data Reach (p : Process) : Process → Type 0 where
    begins : Reach p p
    goes : {q r : Process} → Reach p q → Step q r → Reach p r
