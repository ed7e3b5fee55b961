-- ===== src/Queue/Bounded/Lowest.antt =====
-- findLowestPriority of internal/queue/queue.go finds an item that no other should outlive.
use go_key_pool_system.Prelude.{
  ℕ, zero, suc, ◌<◌, ◌≡◌, refl, false, some, List, [], ◌∷◌, arith, length, inl, inr, Bool-cases,
  sym, ◌∙◌, ◌==◌,
}
use go_key_pool_system.Queue.Item.{Item, Le, le_refl, le_trans, le_of_before, before}
use go_key_pool_system.Queue.Heap.{at}
use go_key_pool_system.Queue.Heap.Swap.{entry_at}
use go_key_pool_system.Queue.Bounded.{worse, scan, find_lowest_priority}

-- `worst` stands at `place`, and every item may be served before it.
pub record Lowest (pq : List Item) (worst : Item) : Type 0 where
  pub place : ℕ
  pub inside : place < length pq
  pub stands : at pq place ≡ worst
  pub last : (c : ℕ) → c < length pq → Le (entry_at pq c) worst.entry

worse-before : (x w : Item) → worse x w ≡ before w.entry x.entry
unfolding before
worse-before x w = ground arith

-- The first of two items is dropped from the comparison, or the second.
drop_first :
    (w x : Item) (xs : List Item) (r : Item)
    → Le w.entry x.entry
    → Lowest (x ∷ xs) r
    → Lowest (w ∷ x ∷ xs) r
drop_first w x xs r h k = record {
  place = suc k.place;
  inside = omega (arith, k.inside);
  stands = k.stands;
  last = go;
}
  where
    go : (c : ℕ) → c < length (w ∷ x ∷ xs) → Le (entry_at (w ∷ x ∷ xs) c) r.entry
    go zero l = le_trans w.entry x.entry r.entry h (k.last 0 (omega arith))
    go (suc c) l = k.last c (omega arith)

drop_second :
    (w x : Item) (xs : List Item) (r : Item)
    → Le x.entry w.entry
    → Lowest (w ∷ xs) r
    → Lowest (w ∷ x ∷ xs) r
drop_second w x xs r h k = record {
  place = spot k.place;
  inside = spot_inside k.place k.inside;
  stands = spot_stands k.place ∙ k.stands;
  last = go;
}
  where
    spot : ℕ → ℕ
    spot zero = zero
    spot (suc n) = suc (suc n)

    spot_inside : (n : ℕ) → n < length (w ∷ xs) → spot n < length (w ∷ x ∷ xs)
    spot_inside zero l = omega arith
    spot_inside (suc n) l = omega arith

    spot_stands : (n : ℕ) → at (w ∷ x ∷ xs) (spot n) ≡ at (w ∷ xs) n
    spot_stands zero = refl
    spot_stands (suc n) = refl

    go : (c : ℕ) → c < length (w ∷ x ∷ xs) → Le (entry_at (w ∷ x ∷ xs) c) r.entry
    go zero l = k.last 0 (omega arith)
    go (suc zero) l = le_trans x.entry w.entry r.entry h (k.last 0 (omega arith))
    go (suc (suc c)) l = k.last (suc c) (omega arith)

-- A scan that starts from `w` ends at the lowest of `w` and the items.
scan_from :
    (w : Item) (xs : List Item) → (r : Item) × (scan xs (some w) ≡ some r) × Lowest (w ∷ xs) r
unfolding scan
scan_from w [] = (w, refl, record { place = 0; inside = omega arith; stands = refl; last = go })
  where
    go : (c : ℕ) → c < length (w ∷ []) → Le (entry_at (w ∷ []) c) w.entry
    go zero l = le_refl w.entry
    go (suc c) l = absurd (omega arith)
scan_from w (x ∷ xs) = elim (Bool-cases (worse x w)) [
  | inl lower ↦
      let (r, e, k) = scan_from x xs in
      (
        r,
        rw lower e,
        drop_first w x xs r (le_of_before w.entry x.entry (sym (worse-before x w) ∙ lower)) k,
      )
  | inr kept ↦
      let (r, e, k) = scan_from w xs in
      (r, rw kept e, drop_second w x xs r (sym (worse-before x w) ∙ kept) k)
]

pub find_lowest_priority-Lowest :
    (pq : List Item) → 0 < length pq → (r : Item) × (find_lowest_priority pq ≡ some r) × Lowest pq r
unfolding find_lowest_priority scan
find_lowest_priority-Lowest [] l = absurd (omega arith)
find_lowest_priority-Lowest (w ∷ xs) l =
    let (r, e, k) = scan_from w xs in
    let test : (suc (length xs) == 0) ≡ false = ground arith in (r, rw test e, k)
