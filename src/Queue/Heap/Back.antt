-- ===== src/Queue/Heap/Back.antt =====
-- Push and Pop of internal/queue/priority_queue.go: the last place of the slice.
use mathlib.Core.List.{Perm, perm_middle, append-nil}
use mathlib.Core.List.Perm
use go_key_pool_system.Prelude.{
  ℕ, suc, ◌-◌, ◌<◌, ◌≡◌, refl, sym, ap, ◌∙◌, subst, List, [], ◌∷◌, arith, length, length-append,
  length-take, ℕ_discrete,
}
use go_key_pool_system.Prelude.Int.{pos, negsuc}
use go_key_pool_system.Queue.Item.{Entry, Item}
use go_key_pool_system.Queue.Array.{get_or-append_left, get_or-append_last, get_or-take, last-perm}
use go_key_pool_system.Queue.Heap.{no_item, at, push_back, pop_back}
use go_key_pool_system.Queue.Heap.Swap.{entry_at, entries, Indexed}
use go_key_pool_system.Queue.Heap.Order.{parent, IsHeap, Ordered}
use go_key_pool_system.Queue.Heap.Up.{UpInv}

-- A heap whose items know their places.
pub record IsValid (pq : List Item) : Type 0 where
  pub heap : IsHeap (length pq) pq
  pub indexed : Indexed pq

module _ (pq : List Item) (item : Item) where
  pub length-push_back : length (push_back pq item) ≡ suc (length pq)
  unfolding push_back
  length-push_back = omega (arith, length-append pq (record item { index = pos (length pq) } ∷ []))

  at-push_back : (c : ℕ) → c < length pq → at (push_back pq item) c ≡ at pq c
  unfolding push_back
  at-push_back c h = get_or-append_left pq _ c no_item h

  at_last : at (push_back pq item) (length pq) ≡ record item { index = pos (length pq) }
  unfolding push_back
  at_last = get_or-append_last pq (record item { index = pos (length pq) }) no_item

  pub push_back-Indexed : Indexed pq → Indexed (push_back pq item)
  push_back-Indexed h c l = elim (ℕ_discrete c (length pq)) [
    | yes last ↦
        subst (λ x. (at (push_back pq item) x).index ≡ pos x) (sym last) (ap (λ x. x.index) at_last)
    | no before ↦
        ap (λ x. x.index) (at-push_back c (omega (arith, length-push_back)))
        ∙ h c (omega (arith, length-push_back))
  ]

  pub push_back-perm : Perm (entries (push_back pq item)) (item.entry ∷ entries pq)
  unfolding push_back
  push_back-perm =
      let last = record item { index = pos (length pq) } in
      Perm.map (λ (x : Item). x.entry) (rw (append-nil pq) at (perm_middle {a = last} pq []))

  -- Only the new item may be out of order.
  pub push_back-UpInv :
      IsHeap (length pq) pq → UpInv (suc (length pq)) (push_back pq item) (length pq)
  push_back-UpInv h = record {
    inside = omega arith;
    room = omega (arith, length-push_back);
    edges = λ c p l ne. ground (
      arith,
      at-push_back c (omega arith),
      at-push_back (parent c) (omega arith),
      h c p (omega arith),
    );
    bridged = λ c p l e q. absurd (omega arith);
  }

-- What taking an item out leaves: `x` is the item and `e` was its entry.
pub record Removed (pq : List Item) (e : Entry) (r : Item × List Item) : Type 0 where
  pub taken : r.0.entry ≡ e
  pub marked : r.0.index ≡ negsuc 0
  pub valid : IsValid r.1
  pub same : Perm (e ∷ entries r.1) (entries pq)
  pub size : suc (length r.1) ≡ length pq

at-pop_back :
    (n : ℕ) (pq : List Item) (c : ℕ) → length pq ≡ suc n → c < n → at (pop_back pq).1 c ≡ at pq c
unfolding pop_back
at-pop_back n pq c h l = get_or-take (length pq - 1) pq c no_item (omega arith)

length-pop_back : (n : ℕ) (pq : List Item) → length pq ≡ suc n → length (pop_back pq).1 ≡ n
unfolding pop_back
length-pop_back n pq h = ground (arith, length-take (length pq - 1) pq)

pop_back-perm :
    (n : ℕ) (pq : List Item)
    → length pq ≡ suc n
    → Perm (entry_at pq n ∷ entries (pop_back pq).1) (entries pq)
unfolding pop_back
pop_back-perm n pq h =
    let last : length pq - 1 ≡ n = omega arith in
    rw last (Perm.map (λ (x : Item). x.entry) (last-perm n pq no_item h))

pop_back_item :
    (n : ℕ) (pq : List Item)
    → length pq ≡ suc n
    → (pop_back pq).0 ≡ record (at pq n) { index = negsuc 0 }
unfolding pop_back
pop_back_item n pq h = let last : length pq - 1 ≡ n = omega arith in rw last refl

-- The last place is cut off a slice whose first places are a heap.
pub pop_back-Removed :
    (n : ℕ) (pq pq' : List Item)
    → length pq ≡ suc n
    → Indexed pq
    → Ordered n pq pq'
    → Removed pq (entry_at pq n) (pop_back pq')
pop_back-Removed n pq pq' h ix o =
    let size : length pq' ≡ suc n = o.moved.size ∙ h in
    let kept = length-pop_back n pq' size in
    record {
      taken = ap (λ x. x.entry) (pop_back_item n pq' size) ∙ o.beyond n (omega arith);
      marked = ap (λ x. x.index) (pop_back_item n pq' size);
      valid = record {
        heap = λ c p l. ground (
          arith,
          kept,
          at-pop_back n pq' c size (omega (arith, kept)),
          at-pop_back n pq' (parent c) size (omega (arith, kept)),
          o.heap c p (omega (arith, kept)),
        );
        indexed = λ c l.
            ap (λ x. x.index) (at-pop_back n pq' c size (omega (arith, kept)))
            ∙ o.moved.indexed ix c (omega (arith, kept));
      };
      same =
          Perm.trans
            (subst (λ x. Perm (x ∷ entries (pop_back pq').1) (entries pq'))
              (o.beyond n (omega arith)) (pop_back-perm n pq' size))
            o.moved.same;
      size = omega (arith, kept);
    }
