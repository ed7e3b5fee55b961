-- ===== src/Prelude/Totals.antt =====
-- Sums of weights over a list, and what a write, an addition or a removal makes of them.
use go_key_pool_system.Prelude.{
  ℕ, zero, suc, ◌+◌, ◌≤◌, ◌≡◌, some, List, [], ◌∷◌, ◌++◌, arith, get_elem?, set, remove_at,
}

module _ {ℓ} {A : Type ℓ} (w : A → ℕ) where
  unfoldable pub total : List A → ℕ
  total [] = 0
  total (x ∷ xs) = w x + total xs

  pub total-append : (xs ys : List A) → total (xs ++ ys) ≡ total xs + total ys
  unfolding total
  total-append [] ys = omega arith
  total-append (x ∷ xs) ys = omega (arith, total-append xs ys)

  pub total-set :
      (xs : List A) (i : ℕ) (old v : A)
      → get_elem? xs i ≡ some old
      → total (set xs i v) + w old ≡ total xs + w v
  unfolding total
  total-set [] i old v e = absurd (cc e)
  total-set (x ∷ xs) zero old v e = ground (arith, e)
  total-set (x ∷ xs) (suc i) old v e = omega (arith, total-set xs i old v e)

  pub total-remove_at :
      (xs : List A) (i : ℕ) (old : A)
      → get_elem? xs i ≡ some old
      → total (remove_at xs i) + w old ≡ total xs
  unfolding total
  total-remove_at [] i old e = absurd (cc e)
  total-remove_at (x ∷ xs) zero old e = ground (arith, e)
  total-remove_at (x ∷ xs) (suc i) old e = omega (arith, total-remove_at xs i old e)

  -- A member weighs no more than all.
  pub total-le : (xs : List A) (i : ℕ) (old : A) → get_elem? xs i ≡ some old → w old ≤ total xs
  total-le xs i old e = omega (arith, total-remove_at xs i old e)
