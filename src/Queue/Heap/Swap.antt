-- ===== src/Queue/Heap/Swap.antt =====
-- What Swap of internal/queue/priority_queue.go does to the slice.
use mathlib.Core.List.{Perm}
use mathlib.Core.List.Perm
use go_key_pool_system.Prelude.{
  ℕ, ◌<◌, ◌≡◌, refl, ◌∙◌, List, map, arith, ◌==◌, if◌then◌else◌, length, set, length-set,
  length-map,
}
use go_key_pool_system.Prelude.Int.{pos}
use go_key_pool_system.Queue.Array.{get_or-set, exchange-perm, map-set, map-get_or}
use go_key_pool_system.Queue.Item.{Entry, Item}
use go_key_pool_system.Queue.Heap.{no_item, at, swap}

abbrev pub entry_at : List Item → ℕ → Entry
entry_at pq i = (at pq i).entry

abbrev pub entries : List Item → List Entry
entries = map (λ x. x.entry)

-- Every item knows its place.
abbrev pub Indexed : List Item → Type 0
Indexed pq = (c : ℕ) → c < length pq → (at pq c).index ≡ pos c

-- The same entries in another order, with the indexes right if they were.
pub record Reordered (pq pq' : List Item) : Type 0 where
  pub size : length pq' ≡ length pq
  pub same : Perm (entries pq') (entries pq)
  pub indexed : Indexed pq → Indexed pq'

pub Reordered-refl : (pq : List Item) → Reordered pq pq
Reordered-refl pq = record { size = refl; same = Perm.refl (entries pq); indexed = λ h. h }

pub Reordered-trans : (p q r : List Item) → Reordered p q → Reordered q r → Reordered p r
Reordered-trans p q r a b = record {
  size = b.size ∙ a.size;
  same = Perm.trans b.same a.same;
  indexed = λ h. b.indexed (a.indexed h);
}

pub length-swap : (pq : List Item) (i j : ℕ) → length (swap pq i j) ≡ length pq
unfolding swap
length-swap pq i j = length-set _ j _ ∙ length-set pq i _

module _ (pq : List Item) (i j : ℕ) (hi : i < length pq) (hj : j < length pq) where
  at-swap :
      (c : ℕ)
      → at (swap pq i j) c ≡ (
          if j == c
          then record (at pq i) { index = pos j }
          else if i == c
          then record (at pq j) { index = pos i }
          else at pq c)
  unfolding swap
  at-swap c = rw (
    get_or-set (set pq i (record (at pq j) { index = pos i })) j c
        (record (at pq i) { index = pos j }) no_item (rw length-set hj),
    get_or-set pq i c (record (at pq j) { index = pos i }) no_item hi,
  )

  pub entry_at-swap :
      (c : ℕ)
      → entry_at (swap pq i j) c
        ≡ (if j == c then entry_at pq i else if i == c then entry_at pq j else entry_at pq c)
  entry_at-swap c = ground (arith, at-swap c)

  swap-perm : Perm (entries (swap pq i j)) (entries pq)
  unfolding swap
  swap-perm =
      let e = λ (x : Item). x.entry in
      rw
        (
          map-set e (set pq i (record (at pq j) { index = pos i })) j
              (record (at pq i) { index = pos j }),
          map-set e pq i (record (at pq j) { index = pos i }),
          ← map-get_or e pq j no_item,
          ← map-get_or e pq i no_item,
        )
        (exchange-perm (entries pq) i j no_item.entry (rw length-map hi) (rw length-map hj))

  pub swap-Reordered : Reordered pq (swap pq i j)
  swap-Reordered = record {
    size = length-swap pq i j;
    same = swap-perm;
    indexed = λ h c l. ground (arith, at-swap c, h c, length-swap pq i j);
  }
