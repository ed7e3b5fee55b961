-- ===== src/Prelude/Members.antt =====
-- Predicates on lists by recursion, and sums of integers over a list.
use go_key_pool_system.Prelude.{◌≡◌, refl, ◌⊎◌, inl, inr, List, [], ◌∷◌, arith, sym, subst}
use go_key_pool_system.Prelude.Int.{ℤ, pos, ◌+ℤ◌, ◌≤ℤ◌, int_laws, parts}

module _ {A : Type 0} where
  abbrev pub All {κ} : (A → Type κ) → List A → Type κ
  All P [] = Unit
  All P (x ∷ xs) = P x × All P xs

  abbrev pub In : A → List A → Type 0
  In a [] = ⊥
  In a (x ∷ xs) = (a ≡ x) ⊎ In a xs

  pub All-map {κ μ} :
      {P : A → Type κ} {Q : A → Type μ} (xs : List A) → ((a : A) → P a → Q a) → All P xs → All Q xs
  All-map [] f h = tt
  All-map (x ∷ xs) f h = (f x h.0, All-map xs f h.1)

  pub All-In {κ} : (P : A → Type κ) (xs : List A) (a : A) → All P xs → In a xs → P a
  All-In P [] a h m = absurd m
  All-In P (x ∷ xs) a h (inl e) = subst P (sym e) h.0
  All-In P (x ∷ xs) a h (inr m) = All-In P xs a h.1 m

  pub All-of_In {κ} : {P : A → Type κ} (xs : List A) → ((a : A) → In a xs → P a) → All P xs
  All-of_In [] f = tt
  All-of_In (x ∷ xs) f = (f x (inl refl), All-of_In xs (λ a m. f a (inr m)))

  unfoldable pub sum : (A → ℤ) → List A → ℤ
  sum f [] = pos 0
  sum f (x ∷ xs) = f x +ℤ sum f xs

  pub sum-cong : (f g : A → ℤ) (xs : List A) → All (λ a. f a ≡ g a) xs → sum f xs ≡ sum g xs
  unfolding sum
  sum-cong f g [] h = refl
  sum-cong f g (x ∷ xs) h = ground (arith, sum-cong f g xs h.1)

  pub sum_add : (f g : A → ℤ) (xs : List A) → sum (λ a. f a +ℤ g a) xs ≡ sum f xs +ℤ sum g xs
  unfolding sum
  sum_add f g [] = omega int_laws
  sum_add f g (x ∷ xs) = omega (int_laws, parts (sum_add f g xs))

  pub sum_nonpos : (f : A → ℤ) (xs : List A) → All (λ a. f a ≤ℤ pos 0) xs → sum f xs ≤ℤ pos 0
  unfolding sum
  sum_nonpos f [] h = omega int_laws
  sum_nonpos f (x ∷ xs) h = omega (int_laws, h.0, sum_nonpos f xs h.1)

  sum_nonneg : (f : A → ℤ) (xs : List A) → All (λ a. pos 0 ≤ℤ f a) xs → pos 0 ≤ℤ sum f xs
  unfolding sum
  sum_nonneg f [] h = omega int_laws
  sum_nonneg f (x ∷ xs) h = omega (int_laws, h.0, sum_nonneg f xs h.1)

  -- Numbers that are not negative and sum to 0 are 0.
  pub sum_zero :
      (f : A → ℤ) (xs : List A) (a : A)
      → All (λ a. pos 0 ≤ℤ f a) xs
      → sum f xs ≡ pos 0
      → In a xs
      → f a ≡ pos 0
  unfolding sum
  sum_zero f [] a h z m = absurd m
  sum_zero f (x ∷ xs) a h z (inl e) =
      let first : f x ≡ pos 0 = omega (int_laws, h.0, sum_nonneg f xs h.1, parts z) in rw e first
  sum_zero f (x ∷ xs) a h z (inr m) =
      sum_zero f xs a h.1 (omega (int_laws, h.0, sum_nonneg f xs h.1, parts z)) m
