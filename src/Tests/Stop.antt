-- ===== src/Tests/Stop.antt =====
-- A shutdown of cmd/main.go at concrete inputs: one request is accepted and answered before it, and is
-- in the queue still when main returns.
use go_key_pool_system.Prelude.{ℕ, ◌≡◌, refl, String, false, length, arith}
use go_key_pool_system.Prelude.Int.{pos}
use go_key_pool_system.Queue.Bounded.{new_queue, enqueue, admit, shut, signal}
use go_key_pool_system.Queue.Heap.{push, up, push_back}
use go_key_pool_system.Worker.Pool.{open_pool, submit}
use go_key_pool_system.Program.Stop.{
  refusing, returned, Process, open_server, shut_down, root_cancel, shut_queue, close_done,
  signalled, drained, cancels_root, shuts_queue, closes_done, Reach, begins, goes, main, accepts,
  enqueues, answers,
}
use go_key_pool_system.Program.Stop.Order.{InOrder, Reach-InOrder}
use go_key_pool_system.Tests.Queue.{urgent}

abbrev opened : Process
opened = open_server (open_pool 2 100 (new_queue (pos 1) false))

abbrev accepted : Process
accepted = record opened { service = submit urgent opened.service }

abbrev ended : Process
ended =
    close_done (shut_queue (root_cancel (shut_down false (record accepted { stage = refusing }))))

ended-Reach : Reach ℕ String opened ended
unfolding open_server open_pool submit enqueue admit new_queue shut_down root_cancel shut_queue
    close_done shut signal
ended-Reach =
    goes
      (goes
        (goes
          (goes
            (goes
              (goes
                (goes (goes begins (accepts refl))
                  (enqueues urgent (λ e. cc e) (omega arith) (λ e. cc e)))
                (answers 0 (λ e. cc e) refl))
              (main (signalled refl)))
            (main (drained refl refl)))
          (main (cancels_root refl)))
        (main (shuts_queue refl (λ e. cc e))))
      (main (closes_done refl))

-- No worker was launched yet: the item is lost with the process.
left_behind : (ended.stage ≡ returned) × (length ended.service.queue.pq ≡ 1)
unfolding open_server open_pool submit enqueue admit new_queue shut_down root_cancel shut_queue
    close_done shut signal push up push_back
left_behind = (refl, refl)

Reach-InOrder_example : InOrder ended
Reach-InOrder_example = Reach-InOrder ℕ String 2 100 (pos 1) false ended ended-Reach
