-- ===== src/Queue/Array.antt =====
-- Slices as lists, under native indices. A read outside a slice panics in Go; here it gives a
-- default, and every lemma that reads asks for the index to be inside.
use mathlib.Core.List.{perm_middle, append-nil}
use mathlib.Core.List.Perm
use go_key_pool_system.Prelude.{
  ℕ, zero, suc, ◌<◌, ◌≡◌, refl, ap, List, [], ◌∷◌, ◌++◌, map, arith, ◌==◌, if◌then◌else◌, length,
  length-set, set, take,
}
use mathlib.Core.List.{Perm}

module _ {A : Type 0} where
  abbrev pub get_or : List A → ℕ → A → A
  get_or [] i d = d
  get_or (x ∷ xs) zero d = x
  get_or (x ∷ xs) (suc i) d = get_or xs i d

  pub get_or-set :
      (xs : List A) (i j : ℕ) (v d : A)
      → i < length xs
      → get_or (set xs i v) j d ≡ (if i == j then v else get_or xs j d)
  get_or-set [] i j v d h = absurd (omega arith)
  get_or-set (x ∷ xs) zero zero v d h = refl
  get_or-set (x ∷ xs) (suc i) (suc j) v d h = ground (arith, get_or-set xs i j v d)
  get_or-set (x ∷ xs) zero (suc j) v d h = ground arith
  get_or-set (x ∷ xs) (suc i) zero v d h = ground arith

  -- A write trades the old element for the new one.
  pub set-perm :
      (xs : List A) (i : ℕ) (v d : A) → i < length xs → Perm (get_or xs i d ∷ set xs i v) (v ∷ xs)
  set-perm [] i v d h = absurd (omega arith)
  set-perm (x ∷ xs) zero v d h = Perm.swap v x xs
  set-perm (x ∷ xs) (suc i) v d h =
      Perm.trans (Perm.swap x (get_or xs i d) (set xs i v))
        (Perm.trans (Perm.cons x (set-perm xs i v d (omega arith))) (Perm.swap v x xs))

  -- Two elements change places.
  pub exchange-perm :
      (xs : List A) (i j : ℕ) (d : A)
      → i < length xs
      → j < length xs
      → Perm (set (set xs i (get_or xs j d)) j (get_or xs i d)) xs
  exchange-perm xs i j d hi hj =
      let y = get_or xs j d in
      let kept : get_or (set xs i y) j d ≡ y = ground (arith, get_or-set xs i j y d) in
      let traded = set-perm (set xs i y) j (get_or xs i d) d (rw length-set hj) in
      Perm.cons_inv (Perm.trans (rw kept at traded) (set-perm xs i y d hi))

  pub get_or-append_left :
      (xs ys : List A) (i : ℕ) (d : A) → i < length xs → get_or (xs ++ ys) i d ≡ get_or xs i d
  get_or-append_left [] ys i d h = absurd (omega arith)
  get_or-append_left (x ∷ xs) ys zero d h = refl
  get_or-append_left (x ∷ xs) ys (suc i) d h = get_or-append_left xs ys i d (omega arith)

  pub get_or-append_last : (xs : List A) (y d : A) → get_or (xs ++ y ∷ []) (length xs) d ≡ y
  get_or-append_last [] y d = refl
  get_or-append_last (x ∷ xs) y d = get_or-append_last xs y d

  pub get_or-take :
      (n : ℕ) (xs : List A) (i : ℕ) (d : A) → i < n → get_or (take n xs) i d ≡ get_or xs i d
  get_or-take zero xs i d h = absurd (omega arith)
  get_or-take (suc n) [] i d h = refl
  get_or-take (suc n) (x ∷ xs) zero d h = refl
  get_or-take (suc n) (x ∷ xs) (suc i) d h = get_or-take n xs i d (omega arith)

  -- Cutting off the last element.
  pub take-last :
      (n : ℕ) (xs : List A) (d : A) → length xs ≡ suc n → take n xs ++ get_or xs n d ∷ [] ≡ xs
  take-last zero (x ∷ []) d h = refl
  take-last zero (x ∷ y ∷ xs) d h = absurd (omega arith)
  take-last (suc n) (x ∷ xs) d h = ap (◌∷◌ x) (take-last n xs d (omega arith))
  take-last n [] d h = absurd (omega arith)

  pub last-perm :
      (n : ℕ) (xs : List A) (d : A) → length xs ≡ suc n → Perm (get_or xs n d ∷ take n xs) xs
  last-perm n xs d h =
      Perm.trans
        (Perm.symm
          (rw (append-nil (take n xs)) at (perm_middle {a = get_or xs n d} (take n xs) [])))
        (rw (take-last n xs d h) (Perm.refl xs))

module _ {A B : Type 0} (f : A → B) where
  pub map-set : (xs : List A) (i : ℕ) (v : A) → map f (set xs i v) ≡ set (map f xs) i (f v)
  map-set [] i v = refl
  map-set (x ∷ xs) zero v = refl
  map-set (x ∷ xs) (suc i) v = ap (◌∷◌ (f x)) (map-set xs i v)

  pub map-get_or : (xs : List A) (i : ℕ) (d : A) → get_or (map f xs) i (f d) ≡ f (get_or xs i d)
  map-get_or [] i d = refl
  map-get_or (x ∷ xs) zero d = refl
  map-get_or (x ∷ xs) (suc i) d = map-get_or xs i d
