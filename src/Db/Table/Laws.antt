-- ===== src/Db/Table/Laws.antt =====
-- The statements of Db/Table.antt against one another: what a SELECT finds after an INSERT, an
-- UPDATE or a DELETE, and that a unique column stays so.
use go_key_pool_system.Prelude.{
  ◌≡◌, ◌∙◌, refl, sym, ap, String, Bool, true, false, Option, none, some, List, [], ◌∷◌, ◌++◌, inl,
  inr, if◌then◌else◌, str_eq, eq_iff, Bool-cases, Option-cases, arith, ◌==◌, not, str_eq_ne,
  ne_of_str_eq,
}
use go_key_pool_system.Db.Table.{
  select_one, update_where, delete_where, rows_affected, has, holds, is_some, is_taken, Unique,
}
use mathlib.Core.Option.{map as option_map}

abbrev pub or_else : {A : Type 0} → Option A → Option A → Option A
or_else none o = o
or_else (some a) o = some a

-- A column that has a value has no other.
pub holds-value : (k : String) (column : Option String) → holds k column ≡ true → column ≡ some k
holds-value k none e = ground arith
holds-value k (some c) e = ap some ((eq_iff c k).0 e)

abbrev get_or : {A : Type 0} → Option A → A → A
get_or none d = d
get_or (some a) d = a

module _ {A : Type 0} where
  -- The row found meets the condition.
  pub select_one-meets :
      (p : A → Bool) (xs : List A) (x : A) → select_one p xs ≡ some x → p x ≡ true
  select_one-meets p [] x e = ground arith
  select_one-meets p (y ∷ xs) x e = ground (arith, select_one-meets p xs x, ap (λ o. get_or o y) e)

  pub select_one-append :
      (p : A → Bool) (xs ys : List A)
      → select_one p (xs ++ ys) ≡ or_else (select_one p xs) (select_one p ys)
  select_one-append p [] ys = refl
  select_one-append p (x ∷ xs) ys = ground (arith, select_one-append p xs ys)

  pub select_one-update :
      (p q : A → Bool) (f : A → A) (xs : List A)
      → ((x : A) → q (f x) ≡ q x)
      → select_one q (update_where p f xs)
        ≡ option_map (λ x. if p x then f x else x) (select_one q xs)
  select_one-update p q f [] keeps = refl
  select_one-update p q f (x ∷ xs) keeps = ground (arith, select_one-update p q f xs keeps, keeps x)

  pub select_one-delete_self :
      (p : A → Bool) (xs : List A) → select_one p (delete_where p xs) ≡ none
  select_one-delete_self p [] = refl
  select_one-delete_self p (x ∷ xs) = ground (arith, select_one-delete_self p xs)

  pub select_one-delete_other :
      (p q : A → Bool) (xs : List A)
      → ((x : A) → q x ≡ true → p x ≡ false)
      → select_one q (delete_where p xs) ≡ select_one q xs
  select_one-delete_other p q [] apart = refl
  select_one-delete_other p q (x ∷ xs) apart =
      ground (arith, select_one-delete_other p q xs apart, apart x)

  pub rows_affected-none :
      (p : A → Bool) (xs : List A) → (rows_affected p xs == 0) ≡ not (is_some (select_one p xs))
  rows_affected-none p [] = refl
  rows_affected-none p (x ∷ xs) = ground (arith, rows_affected-none p xs)

  pub is_taken-update :
      (column : A → Option String) (v : Option String) (p : A → Bool) (f : A → A) (xs : List A)
      → ((x : A) → column (f x) ≡ column x)
      → is_taken column v (update_where p f xs) ≡ is_taken column v xs
  is_taken-update column none p f xs keeps = refl
  is_taken-update column (some k) p f xs keeps =
      ground (arith, select_one-update p (has column k) f xs (λ x. ap (holds k) (keeps x)))

  pub Unique-update :
      (column : A → Option String) (p : A → Bool) (f : A → A) (xs : List A)
      → ((x : A) → column (f x) ≡ column x)
      → Unique column xs
      → Unique column (update_where p f xs)
  Unique-update column p f [] keeps h = tt
  Unique-update column p f (x ∷ xs) keeps h =
      let same : column (if p x then f x else x) ≡ column x = elim (Bool-cases (p x)) [
        | inl e ↦ rw (e, keeps x)
        | inr e ↦ rw e
      ] in
      (
        rw (same, is_taken-update column (column x) p f xs keeps, h.0),
        Unique-update column p f xs keeps h.1,
      )

  is_taken-delete :
      (column : A → Option String) (v : Option String) (p : A → Bool) (xs : List A)
      → is_taken column v xs ≡ false
      → is_taken column v (delete_where p xs) ≡ false
  is_taken-delete column none p xs h = refl
  is_taken-delete column (some k) p [] h = refl
  is_taken-delete column (some k) p (x ∷ xs) h =
      ground (arith, is_taken-delete column (some k) p xs)

  pub Unique-delete :
      (column : A → Option String) (p : A → Bool) (xs : List A)
      → Unique column xs
      → Unique column (delete_where p xs)
  Unique-delete column p [] h = tt
  Unique-delete column p (x ∷ xs) h =
      ground (arith, Unique-delete column p xs h.1, is_taken-delete column (column x) p xs h.0)

  is_taken-append :
      (column : A → Option String) (v : Option String) (xs : List A) (y : A)
      → is_taken column v xs ≡ false
      → ((k : String) → v ≡ some k → has column k y ≡ false)
      → is_taken column v (xs ++ y ∷ []) ≡ false
  is_taken-append column none xs y h apart = refl
  is_taken-append column (some k) xs y h apart =
      let first : is_some (select_one (has column k) xs) ≡ false = ground (arith, h) in
      ground (arith, select_one-append (has column k) xs (y ∷ []), apart k refl, first)

  -- What is not taken by a table is not taken by its rows: neither the first nor the others.
  is_taken-cons :
      (column : A → Option String) (v : Option String) (x : A) (xs : List A)
      → is_taken column v (x ∷ xs) ≡ false
      → ((k : String) → v ≡ some k → has column k x ≡ false) × (is_taken column v xs ≡ false)
  is_taken-cons column none x xs h = (λ k e. ground arith, refl)
  is_taken-cons column (some c) x xs h = (λ k e. ground (arith, h, e), ground (arith, h))

  has_sym :
      (column : A → Option String) (x y : A) (k : String)
      → column x ≡ some k
      → ((c : String) → column y ≡ some c → has column c x ≡ false)
      → has column k y ≡ false
  has_sym column x y k e apart = elim (Option-cases (column y)) [
    | inl empty ↦ ap (holds k) empty
    | inr (c, full) ↦
        let other : str_eq k c ≡ false = sym (ap (holds c) e) ∙ apart c full in
        ap (holds k) full ∙ str_eq_ne c k (λ same. ne_of_str_eq k c other (sym same))
  ]

  -- A row that breaks no constraint against the others can be added.
  pub Unique-append :
      (column : A → Option String) (xs : List A) (y : A)
      → Unique column xs
      → is_taken column (column y) xs ≡ false
      → Unique column (xs ++ y ∷ [])
  Unique-append column [] y h fresh = (ground arith, tt)
  Unique-append column (x ∷ xs) y h fresh =
      let (apart, others) = is_taken-cons column (column y) x xs fresh in
      (
        is_taken-append column (column x) xs y h.0 (λ k e. has_sym column x y k e apart),
        Unique-append column xs y h.1 others,
      )
