-- ===== src/Tests/Service.antt =====
-- Runs of the service around internal/worker/pool.go at concrete inputs: two workers, and one item.
use go_key_pool_system.Prelude.{ℕ, refl, String, true, false}
use go_key_pool_system.Prelude.Int.{pos}
use go_key_pool_system.Queue.Bounded.{new_queue, shut}
use go_key_pool_system.Worker.Pool.{
  Service, open_pool, submit, launch, launches, Run, here, submits, acts,
}
use go_key_pool_system.Worker.Pool.Conserved.{IsSound, Run-conserves}
use go_key_pool_system.Tests.Queue.{urgent}

abbrev opened : Service
opened = open_pool 2 100 (new_queue (pos 1) false)

abbrev loaded : Service
loaded = submit urgent (launch 1 opened)

loaded-Run : Run ℕ String opened 1 loaded
unfolding launch open_pool
loaded-Run = submits urgent (λ e. cc e) (acts here (launches 1 refl))

Run-conserves_example : IsSound loaded
Run-conserves_example = Run-conserves ℕ String 2 100 (pos 1) false 1 loaded loaded-Run

abbrev cancelled : Service
cancelled = record loaded { cancelled = true }

abbrev shutting : Service
shutting = record cancelled { queue = shut cancelled.queue }
