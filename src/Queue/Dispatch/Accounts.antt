-- ===== src/Queue/Dispatch/Accounts.antt =====
-- No item goes missing between Enqueue and the workers of internal/queue/queue.go, and no wake-up.
use mathlib.Core.List.{Perm, Permᴰ}
use mathlib.Core.Logic.{∥∥₁_elim}
use native.Mathlib.Nat.{ℕ_set}
use go_key_pool_system.Prelude.{
  ℕ, zero, suc, ◌+◌, ◌<◌, ◌≤◌, ◌≡◌, refl, Bool, true, false, Option, none, List, [], ◌∷◌, ◌++◌,
  arith, length, if◌then◌else◌, ◌⊎◌, inl, inr, Bool-cases, sym, ◌∙◌, ◌==◌, subst, ap, length-map,
}
use go_key_pool_system.Prelude.Int.{ℤ, pos, ◌<ℤ◌, ◌≤ℤ◌}
use go_key_pool_system.Queue.Item.{Entry, Item}
use go_key_pool_system.Queue.Heap.{pop}
use go_key_pool_system.Queue.Heap.Swap.{entries}
use go_key_pool_system.Queue.Heap.Back.{IsValid}
use go_key_pool_system.Queue.Heap.Remove.{pop-Removed}
use go_key_pool_system.Queue.Bounded.{Queue, QueueError, enqueue}
use go_key_pool_system.Queue.Bounded.Enqueue.{
  Admitted, refused, no_room, room, evicted, enqueue-Enqueued,
}
use go_key_pool_system.Queue.Dispatch.{
  drain, Loop, waiting, running, holding, finished, System, submit,
}

-- How many of the entries pass the test.
unfoldable pub tally : (Entry → Bool) → List Entry → ℕ
tally p [] = 0
tally p (e ∷ es) = (if p e then 1 else 0) + tally p es

abbrev pub in_hand : Loop → List Entry
in_hand (holding item) = item.entry ∷ []
in_hand waiting = []
in_hand running = []
in_hand finished = []

pub tally-append :
    (p : Entry → Bool) (xs ys : List Entry) → tally p (xs ++ ys) ≡ tally p xs + tally p ys
unfolding tally
tally-append p [] ys = omega arith
tally-append p (x ∷ xs) ys = omega (arith, tally-append p xs ys)

tally_steps : (p : Entry → Bool) {xs ys : List Entry} → Permᴰ xs ys → tally p xs ≡ tally p ys
unfolding tally
tally_steps p Permᴰ.nil = refl
tally_steps p (Permᴰ.cons e d) = rw e (omega (arith, tally_steps p d))
tally_steps p (Permᴰ.swap e f) = rw (e, f) (omega arith)
tally_steps p (Permᴰ.trans d e) = tally_steps p d ∙ tally_steps p e

pub tally-perm : (p : Entry → Bool) (xs ys : List Entry) → Perm xs ys → tally p xs ≡ tally p ys
tally-perm p xs ys h = ∥∥₁_elim h (ℕ_set (tally p xs) (tally p ys)) (tally_steps p)

pub pop-tally :
    (p : Entry → Bool) (pq : List Item)
    → IsValid pq
    → 0 < length pq
    → tally p ((pop pq).0.entry ∷ entries (pop pq).1) ≡ tally p (entries pq)
pop-tally p pq v l =
    let r = pop-Removed pq v l in
    tally-perm p _ _ (subst (λ e. Perm (e ∷ entries (pop pq).1) (entries pq)) (sym r.taken) r.same)

-- Every item is taken out, and goes to a worker or is dropped.
pub drain-tally :
    (p : Entry → Bool) (fuel : ℕ) (pq : List Item) (ready : ℕ → Bool)
    → length pq ≤ fuel
    → IsValid pq
    → ((drain fuel pq ready).left ≡ [])
      × (tally p (entries pq)
          ≡ tally p (entries (drain fuel pq ready).sent)
            + tally p (entries (drain fuel pq ready).dropped))
unfolding drain tally
drain-tally p zero [] ready l v = (refl, refl)
drain-tally p zero (x ∷ pq) ready l v = absurd (omega arith)
drain-tally p (suc fuel) [] ready l v = let test : (0 == 0) ≡ true = refl in (refl, refl)
drain-tally p (suc fuel) (x ∷ xs) ready l v =
    let pq = x ∷ xs in
    let r = pop-Removed pq v (omega arith) in
    let (left, counts) = drain-tally p fuel (pop pq).1 ready (omega (arith, r.size)) r.valid in
    let test : (length pq == 0) ≡ false = ground arith in
    let taken = pop-tally p pq v (omega arith) in
    elim (Bool-cases (ready fuel)) [
      | inl sent ↦ rw (test, sent) (left, omega (arith, taken, counts))
      | inr dropped ↦ rw (test, dropped) (left, omega (arith, taken, counts))
    ]

-- What is true of the queue where the loop stands.
abbrev pub At : Loop → Queue → Type 0
At waiting q = (length q.pq ≡ 0) ⊎ (q.notified ≡ true)
At finished q = (length q.pq ≡ 0) × (q.closed ≡ true)
At running q = Unit
At (holding item) q = Unit

-- Every accepted item has reached a worker, is on its way, is in the heap, was lost as the queue shut
-- down, or is among `gone`, which is empty without preemption. A loop that waits has a token, or no
-- item to send; nothing is lost before `done` is closed; a loop that has finished leaves an empty heap, and nothing comes in.
pub record IsSound (s : System) : Type 0 where
  pub valid : IsValid s.queue.pq
  pub gone : List Entry
  pub preempted : (s.queue.preempt ≡ true) ⊎ (gone ≡ [])
  pub balanced :
      (p : Entry → Bool)
      → tally p s.accepted
        ≡ tally p s.delivered
          + tally p s.lost
          + tally p (in_hand s.loop)
          + tally p (entries s.queue.pq)
          + tally p gone
  pub bounded : (pos (length s.queue.pq) ≤ℤ s.queue.max_size) ⊎ (length s.queue.pq ≡ 0)
  pub shutting : (s.queue.stopped ≡ false) ⊎ (s.queue.closed ≡ true)
  pub losing : (s.lost ≡ []) ⊎ (s.queue.stopped ≡ true)
  pub standing : At s.loop s.queue

abbrev after : System → Item → Option QueueError × Queue → System
after s item r = record s {
  queue = r.1;
  accepted = elim r.0 [ none ↦ item.entry ∷ s.accepted | _ ↦ s.accepted ];
}

At-admitted : (l : Loop) (q q' : Queue) → q.closed ≡ false → q'.notified ≡ true → At l q → At l q'
At-admitted waiting q q' c n a = inr n
At-admitted finished q q' c n a = absurd (cc (a.1, c))
At-admitted running q q' c n a = tt
At-admitted (holding item) q q' c n a = tt

both_empty :
    {b : Bool} {xs ys : List Entry}
    → (b ≡ true) ⊎ (xs ≡ [])
    → (b ≡ true) ⊎ (ys ≡ [])
    → (b ≡ true) ⊎ (xs ++ ys ≡ [])
both_empty (inl h) k = inl h
both_empty (inr h) (inl k) = inl k
both_empty (inr h) (inr k) = inr (rw (h, k) refl)

tally_all : (xs : List Entry) → tally (λ e. true) xs ≡ length xs
unfolding tally
tally_all [] = refl
tally_all (x ∷ xs) = omega (arith, tally_all xs)

-- The kept entries and the new one fit, and those that left are accounted for.
Admitted-IsSound :
    (s : System) (item : Item) (kept left : List Entry) (r : Option QueueError × Queue)
    → IsSound s
    → s.queue.closed ≡ false
    → Admitted s.queue item.entry kept r
    → ((p : Entry → Bool) → tally p left + tally p kept ≡ tally p (entries s.queue.pq))
    → (s.queue.preempt ≡ true) ⊎ (left ≡ [])
    → pos (suc (length kept)) ≤ℤ s.queue.max_size
    → IsSound (after s item r)
unfolding tally
Admitted-IsSound s item kept left r v opened a balance allowed fits = record {
  valid = a.valid;
  gone = left ++ v.gone;
  preempted =
      subst (λ (q : Queue). (q.preempt ≡ true) ⊎ (left ++ v.gone ≡ [])) (sym a.settings)
        (both_empty allowed v.preempted);
  balanced = λ p.
      rw a.accepted (
        omega
          (arith, v.balanced p, balance p, tally-perm p _ _ a.same, tally-append p left v.gone));
  bounded = inl (ground (arith, a.size, ap (λ q. q.max_size) a.settings));
  shutting =
      subst (λ (q : Queue). (q.stopped ≡ false) ⊎ (q.closed ≡ true)) (sym a.settings) v.shutting;
  losing = subst (λ (q : Queue). (s.lost ≡ []) ⊎ (q.stopped ≡ true)) (sym a.settings) v.losing;
  standing = At-admitted s.loop s.queue r.1 opened (ap (λ q. q.notified) a.settings) v.standing;
}

pub none_left : (p : Entry → Bool) (xs : List Entry) → tally p [] + tally p xs ≡ tally p xs
unfolding tally
none_left p xs = omega arith

pub one_left :
    (p : Entry → Bool) (e : Entry) (kept xs : List Entry)
    → Perm (e ∷ kept) xs
    → tally p (e ∷ []) + tally p kept ≡ tally p xs
one_left p e kept xs h = sym (tally-append p (e ∷ []) kept) ∙ tally-perm p (e ∷ kept) xs h

length-perm : (xs ys : List Entry) → Perm xs ys → length xs ≡ length ys
length-perm xs ys h = sym (tally_all xs) ∙ tally-perm (λ e. true) xs ys h ∙ tally_all ys

evicted_fits :
    (q : Queue) (e : Entry) (kept : List Entry)
    → Perm (e ∷ kept) (entries q.pq)
    → (pos (length q.pq) ≤ℤ q.max_size) ⊎ (length q.pq ≡ 0)
    → pos (suc (length kept)) ≤ℤ q.max_size
evicted_fits q e kept h b =
    let size = length-perm _ _ h ∙ length-map q.pq (λ (x : Item). x.entry) in
    elim b [
      | inl fits ↦ omega (arith, size, fits)
      | inr empty ↦ absurd (omega (arith, size, empty))
    ]

room_fits : (n : ℕ) (m : ℤ) → pos n <ℤ m → pos (suc n) ≤ℤ m
room_fits n m h = omega arith

pub submit-IsSound : (s : System) (item : Item) → IsSound s → IsSound (submit item s)
unfolding submit
submit-IsSound s item v = elim (enqueue-Enqueued s.queue item v.valid) [
  | refused c e ↦ subst (λ r. IsSound (after s item r)) (sym e) v
  | no_room c m e why ↦ subst (λ r. IsSound (after s item r)) (sym e) v
  | room c m a ↦
      let size = length-map s.queue.pq (λ (x : Item). x.entry) in
      Admitted-IsSound s item (entries s.queue.pq) [] (enqueue s.queue item) v c a
        (λ p. none_left p _) (inr refl) (rw size (room_fits (length s.queue.pq) s.queue.max_size m))
  | evicted victim kept c pre m low lower same a ↦
      let alone : (p : Entry → Bool)
          → tally p (victim.entry ∷ []) + tally p kept ≡ tally p (entries s.queue.pq) =
        λ p. one_left p victim.entry kept (entries s.queue.pq) same in
      Admitted-IsSound s item kept (victim.entry ∷ []) (enqueue s.queue item) v c a alone (inl pre)
        (evicted_fits s.queue victim.entry kept same v.bounded)
]
