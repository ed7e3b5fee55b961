-- ===== src/Program/Stop/Standing.antt =====
-- What holds at each stage of the shutdown in main of cmd/main.go.
use go_key_pool_system.Prelude.{
  ◌≡◌, ◌≢◌, ◌∙◌, refl, subst, Bool, true, false, Option, none, some, ◌⊎◌, inl, inr, arith,
  Bool-cases, length,
}
use go_key_pool_system.Prelude.Int.{pos, leb_ℤ}
use go_key_pool_system.Queue.Item.{Item}
use go_key_pool_system.Queue.Bounded.{
  Queue, QueueError, queue_closed, enqueue, evict, admit, full, find_lowest_priority, shut, signal,
}
use go_key_pool_system.Worker.Pool.{
  draining, Service, submit, Act, Run, here, submits, acts, shuts, signals, cancels,
}
use go_key_pool_system.Worker.Pool.Conserved.{IsSound, Run-IsSound}
use go_key_pool_system.Program.Stop.{
  Stage, serving, refusing, stopped_server, cancelled_root, closing, returned, Process, shut_down,
  root_cancel, shut_queue, close_done, MainStep, signalled, drained, times_out, cancels_root,
  shuts_queue, closes_done, Step, main, accepts, enqueues, answers, works, Reach, begins, goes,
}

-- What has been done when main stands at a stage.
abbrev pub is_cancelled : Stage → Bool
is_cancelled serving = false
is_cancelled refusing = false
is_cancelled stopped_server = false
is_cancelled _ = true

abbrev pub is_closed : Stage → Bool
is_closed closing = true
is_closed returned = true
is_closed _ = false

abbrev pub is_stopped : Stage → Bool
is_stopped returned = true
is_stopped _ = false

abbrev pub in_service : Stage → Bool
in_service serving = true
in_service refusing = true
in_service _ = false

-- Before the end of Shutdown, after its deadline, or with no handler left.
abbrev pub Served : Process → Type 0
Served p = (in_service p.stage ≡ true) ⊎ (p.late ≡ true) ⊎ (p.handlers ≡ 0)

pub record Standing (p : Process) : Type 0 where
  pub cancelled : p.service.cancelled ≡ is_cancelled p.stage
  pub closed : p.service.queue.closed ≡ is_closed p.stage
  pub stopped : p.service.queue.stopped ≡ is_stopped p.stage
  pub served : Served p
  pub sound : IsSound p.service

-- What Enqueue leaves of the flags, and when it says that the queue is closed.
abbrev pub Open : Queue → Option QueueError × Queue → Type 0
Open q r =
    (r.1.closed ≡ q.closed)
    × (r.1.stopped ≡ q.stopped)
    × ((q.closed ≡ true) ⊎ (r.0 ≢ some queue_closed))

evict-Open : (q : Queue) (item : Item) (worst : Option Item) → Open q (evict q item worst)
unfolding evict admit full
evict-Open q item none = (refl, refl, inr (λ e. cc e))
evict-Open q item (some worst) = elim (Bool-cases (leb_ℤ worst.priority item.priority)) [
  | inl low ↦ rw low (refl, refl, inr (λ e. cc e))
  | inr high ↦ rw high (refl, refl, inr (λ e. cc e))
]

pub enqueue-Open : (q : Queue) (item : Item) → Open q (enqueue q item)
unfolding enqueue admit full
enqueue-Open q item = elim (Bool-cases q.closed) [
  | inl shut ↦ rw shut (refl, refl, inl refl)
  | inr opened ↦ elim (Bool-cases (leb_ℤ q.max_size (pos (length q.pq)))) [
    | inr room ↦ rw (opened, room) (refl, refl, inr (λ e. cc e))
    | inl above ↦ elim (Bool-cases q.preempt) [
      | inr plain ↦ rw (opened, above, plain) (refl, refl, inr (λ e. cc e))
      | inl preempts ↦
          rw (opened, above, preempts)
            (evict-Open (record q { closed = false; preempt = true }) item
              (find_lowest_priority q.pq))
    ]
  ]
]

pub at_stage :
    (p : Process) (stage : Stage)
    → p.stage ≡ stage
    → Standing p
    → Standing (record p { stage = stage })
at_stage p stage at h = subst (λ st. Standing (record p { stage = st })) at h

-- The handlers, after Shutdown.
after_service :
    (p : Process) → in_service p.stage ≡ false → Served p → (p.late ≡ true) ⊎ (p.handlers ≡ 0)
after_service p over (inl early) = absurd (cc (over, early))
after_service p over (inr served) = served

module _ (F H : Type 0) where
  Act-IsSound : {s t : Service} → Act F H s t → IsSound s → IsSound t
  Act-IsSound act v = Run-IsSound (acts here act) v

  submit-IsSound :
      {s : Service} (item : Item) → s.loop ≢ draining → IsSound s → IsSound (submit item s)
  submit-IsSound {s} item free v =
      let run : Run F H s 0 (submit item s) = submits item free here in Run-IsSound run v

  main-Standing : {p q : Process} → MainStep p q → Standing p → Standing q
  unfolding shut_down root_cancel shut_queue close_done shut signal
  main-Standing {p} (signalled at) h =
      let before = at_stage p serving at h in
      record {
        cancelled = before.cancelled;
        closed = before.closed;
        stopped = before.stopped;
        served = inl refl;
        sound = h.sound;
      }
  main-Standing {p} (drained at quiet) h =
      let before = at_stage p refusing at h in
      record {
        cancelled = before.cancelled;
        closed = before.closed;
        stopped = before.stopped;
        served = inr (inr quiet);
        sound = h.sound;
      }
  main-Standing {p} (times_out at) h =
      let before = at_stage p refusing at h in
      record {
        cancelled = before.cancelled;
        closed = before.closed;
        stopped = before.stopped;
        served = inr (inl refl);
        sound = h.sound;
      }
  main-Standing {p} (cancels_root at) h =
      let before = at_stage p stopped_server at h in
      record {
        cancelled = refl;
        closed = before.closed;
        stopped = before.stopped;
        served = inr (after_service (record p { stage = stopped_server }) refl before.served);
        sound = Act-IsSound (cancels before.cancelled) h.sound;
      }
  main-Standing {p} (shuts_queue at free) h =
      let before = at_stage p cancelled_root at h in
      record {
        cancelled = before.cancelled;
        closed = refl;
        stopped = before.stopped;
        served = inr (after_service (record p { stage = cancelled_root }) refl before.served);
        sound = Act-IsSound (shuts before.closed free) h.sound;
      }
  main-Standing {p} (closes_done at) h =
      let before = at_stage p closing at h in
      record {
        cancelled = before.cancelled;
        closed = before.closed;
        stopped = refl;
        served = inr (after_service (record p { stage = closing }) refl before.served);
        sound = Act-IsSound (signals before.closed before.stopped) h.sound;
      }

  Step-Standing : {p q : Process} → Step F H p q → Standing p → Standing q
  unfolding submit
  Step-Standing (main step) h = main-Standing step h
  Step-Standing (accepts at) h = record {
    cancelled = h.cancelled;
    closed = h.closed;
    stopped = h.stopped;
    served = inl (rw at refl);
    sound = h.sound;
  }
  Step-Standing {p} (enqueues item on busy free) h =
      let (closed, stopped, answer) = enqueue-Open p.service.queue item in
      record {
        cancelled = h.cancelled;
        closed = closed ∙ h.closed;
        stopped = stopped ∙ h.stopped;
        served = h.served;
        sound = submit-IsSound item free h.sound;
      }
  Step-Standing (answers left on busy) h = record {
    cancelled = h.cancelled;
    closed = h.closed;
    stopped = h.stopped;
    served = elim h.served [
      | inl early ↦ inl early
      | inr (inl late) ↦ inr (inl late)
      | inr (inr quiet) ↦ absurd (omega (arith, quiet, busy))
    ];
    sound = h.sound;
  }
  Step-Standing (works on act same) h = record {
    cancelled = same.cancelled ∙ h.cancelled;
    closed = same.closed ∙ h.closed;
    stopped = same.stopped ∙ h.stopped;
    served = h.served;
    sound = Act-IsSound act h.sound;
  }

  pub Reach-Standing : {p q : Process} → Reach F H p q → Standing p → Standing q
  Reach-Standing begins h = h
  Reach-Standing (goes r step) h = Step-Standing step (Reach-Standing r h)
