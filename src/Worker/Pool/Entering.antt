-- ===== src/Worker/Pool/Entering.antt =====
-- The steps of the service around internal/worker/pool.go that call Enqueue.
use go_key_pool_system.Prelude.{
  ℕ, ◌+◌, ◌≡◌, refl, sym, subst, Bool, true, false, Option, none, some, List, [], ◌∷◌, ◌++◌, arith,
  get_elem?, remove_at, length, length-append, ◌⊎◌, inl, inr,
}
use go_key_pool_system.Prelude.Totals.{total, total-remove_at}
use go_key_pool_system.Queue.Item.{Entry, Item}
use go_key_pool_system.Queue.Bounded.{Queue, QueueError, enqueue}
use go_key_pool_system.Queue.Dispatch.Accounts.{tally, tally-append}
use go_key_pool_system.Queue.Dispatch.Entered.{Entered, enqueue-Outcome}
use go_key_pool_system.Worker.Pool.{
  Loop, waiting, running, holding, draining, finished, Service, preempting, submit, requeue,
}
use go_key_pool_system.Worker.Pool.Accounts.{one, At, Sound}

-- An item that comes in leaves each loop where it may stand: it brings a token.
At-entered :
    (l : Loop) (q : Queue) (pq : List Item)
    → q.closed ≡ false
    → At l q
    → At l (record q { pq = pq; notified = true })
At-entered waiting q pq c a = inr refl
At-entered running q pq c a = tt
At-entered (holding item) q pq c a = tt
At-entered draining q pq c a = absurd (cc (a.0, c))
At-entered finished q pq c a = absurd (cc (a.1, c))

both_empty :
    {b : Bool} {xs ys : List Entry}
    → (b ≡ true) ⊎ (xs ≡ [])
    → (b ≡ true) ⊎ (ys ≡ [])
    → (b ≡ true) ⊎ (xs ++ ys ≡ [])
both_empty (inl h) k = inl h
both_empty (inr h) (inl k) = inl k
both_empty (inr h) (inr k) = inr (rw (h, k) refl)

-- A queue that an item came into, beside new lists of the accepted and the delayed.
module _ (gone : List Entry) (s : Service) (item : Item) where
  abbrev with_queue : Queue → List Entry → List Item → ℕ → Service
  with_queue q acc later n = record s {
    queue = q;
    accepted = acc;
    delayed = later;
    preemptions = n;
  }

  Entered-Sound :
      (out : List Entry) (r : Option QueueError × Queue) (acc : List Entry) (later : List Item)
      (n : ℕ)
      → n ≡ length out + s.preemptions
      → Entered s.queue item.entry out r
      → ((p : Entry → Bool)
          → tally p acc + total (one p) s.delayed
            ≡ tally p s.accepted + total (one p) later + tally p (item.entry ∷ []))
      → Sound gone s
      → Sound (out ++ gone) (with_queue r.1 acc later n)
  Entered-Sound out r acc later n counts a moved h = record {
    valid = a.valid;
    preempted =
        subst (λ (q : Queue). (q.preempt ≡ true) ⊎ (out ++ gone ≡ [])) (sym a.settings)
          (both_empty a.preempted h.preempted);
    evictions = omega (arith, length-append out gone, h.evictions, counts);
    balanced = λ p. omega (arith, h.balanced p, moved p, a.counts p, tally-append p out gone);
    counted = h.counted;
    standing = rw a.settings (At-entered s.loop s.queue r.1.pq a.opened h.standing);
    shutting =
        subst (λ (q : Queue). (q.stopped ≡ false) ⊎ (q.closed ≡ true)) (sym a.settings) h.shutting;
    drops = subst (λ (q : Queue). (s.dropped ≡ []) ⊎ (q.stopped ≡ true)) (sym a.settings) h.drops;
    gives_up = h.gives_up;
  }

  abbrev submitted : Option QueueError × Queue → Service
  submitted r =
      with_queue r.1 (elim r.0 [ none ↦ item.entry ∷ s.accepted | _ ↦ s.accepted ]) s.delayed
        (preempting s.queue r.0 s.preemptions)

  pub submit-Sound : Sound gone s → (after : List Entry) × Sound after (submit item s)
  unfolding submit tally preempting
  submit-Sound h = elim (enqueue-Outcome s.queue item h.valid) [
    | inl (error, e) ↦ (gone, subst (λ r. Sound gone (submitted r)) (sym e) h)
    | inr (out, a) ↦
        let r = enqueue s.queue item in
        (
          out ++ gone,
          rw a.accepted (
              Entered-Sound out r (item.entry ∷ s.accepted) s.delayed _ (ground (arith, a.evicted))
                a (λ p. omega arith) h),
        )
  ]

  abbrev requeued : ℕ → Option QueueError × Queue → Service
  requeued j r = record s {
    queue = r.1;
    delayed = remove_at s.delayed j;
    refused = elim r.0 [ none ↦ s.refused | _ ↦ item.entry ∷ s.refused ];
    preemptions = preempting s.queue r.0 s.preemptions;
  }

  refused-Sound :
      (j : ℕ) (error : QueueError)
      → get_elem? s.delayed j ≡ some item
      → Sound gone s
      → Sound gone (requeued j (some error, s.queue))
  unfolding tally preempting
  refused-Sound j error e h = record {
    valid = h.valid;
    preempted = h.preempted;
    evictions = h.evictions;
    balanced = λ p. omega (arith, h.balanced p, total-remove_at (one p) s.delayed j item e);
    counted = h.counted;
    standing = h.standing;
    shutting = h.shutting;
    drops = h.drops;
    gives_up = h.gives_up;
  }

  pub requeue-Sound :
      (j : ℕ)
      → get_elem? s.delayed j ≡ some item
      → Sound gone s
      → (after : List Entry) × Sound after (requeue j item s)
  unfolding requeue preempting
  requeue-Sound j e h = elim (enqueue-Outcome s.queue item h.valid) [
    | inl (error, failed) ↦
        (gone, subst (λ r. Sound gone (requeued j r)) (sym failed) (refused-Sound j error e h))
    | inr (out, a) ↦
        let r = enqueue s.queue item in
        (
          out ++ gone,
          rw a.accepted (
              Entered-Sound out r s.accepted (remove_at s.delayed j) _ (ground (arith, a.evicted)) a
                (λ p. omega (arith, total-remove_at (one p) s.delayed j item e)) h),
        )
  ]
