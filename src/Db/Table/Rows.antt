-- ===== src/Db/Table/Rows.antt =====
-- A table with a PRIMARY KEY of text is a finite map: what SELECT finds under each key after an
-- UPDATE, a DELETE and an INSERT.
use go_key_pool_system.Prelude.{
  ◌≡◌, ◌∙◌, sym, ap, subst, String, Bool, true, false, Option, none, some, List, [], ◌∷◌, ◌++◌, inl,
  inr, arith, if◌then◌else◌, str_eq, str_eq_self, str_eq_ne, Bool-cases, Option-cases, eq_iff,
  ne_of_str_eq,
}
use go_key_pool_system.Db.Table.{select_one, update_where, delete_where, has}
use go_key_pool_system.Db.Table.Laws.{
  select_one-append, select_one-meets, select_one-update, select_one-delete_self,
  select_one-delete_other,
}
use mathlib.Core.Option.{map as option_map}

module _ {A : Type 0} where
  abbrev pub bind : Option A → (A → Option A) → Option A
  bind none change = none
  bind (some a) change = change a

  -- The map with another entry at `id`.
  abbrev pub put : String → Option A → (String → Option A) → String → Option A
  put id o m j = if str_eq id j then o else m j

module _ {A : Type 0} (id_of : A → String) where
  abbrev pub with_key : String → A → Bool
  with_key id = has (λ x. some (id_of x)) id

  -- What the table holds under each key.
  abbrev pub view : List A → String → Option A
  view xs id = select_one (with_key id) xs

  -- A row that is found has the key that was asked for.
  pub view-meets : (xs : List A) (id : String) (x : A) → view xs id ≡ some x → id_of x ≡ id
  view-meets xs id x e = (eq_iff (id_of x) id).0 (select_one-meets (with_key id) xs x e)

  -- A row has one key.
  with_key-apart :
      (id j : String) (x : A) → str_eq id j ≡ false → with_key j x ≡ true → with_key id x ≡ false
  with_key-apart id j x other e =
      str_eq_ne (id_of x) id (λ same. ne_of_str_eq id j other (sym same ∙ (eq_iff (id_of x) j).0 e))

  pub view-update :
      (id j : String) (f : A → A) (xs : List A)
      → ((x : A) → id_of (f x) ≡ id_of x)
      → view (update_where (with_key id) f xs) j
        ≡ put id (bind (view xs id) (λ x. some (f x))) (view xs) j
  view-update id j f xs keeps =
      select_one-update (with_key id) (with_key j) f xs (λ x. ap (λ i. str_eq i j) (keeps x))
      ∙ elim (Bool-cases (str_eq id j)) [
        | inl here ↦
            let same : id ≡ j = (eq_iff id j).0 here in
            subst
              (λ i.
                option_map (λ x. if with_key id x then f x else x) (view xs i)
                ≡ put id (bind (view xs id) (λ x. some (f x))) (view xs) i)
              same
              (elim (Option-cases (view xs id)) [
                | inl e ↦ ground (arith, e, str_eq_self id)
                | inr (x, e) ↦
                    ground (arith, e, str_eq_self id, select_one-meets (with_key id) xs x e)
              ])
        | inr other ↦ elim (Option-cases (view xs j)) [
          | inl e ↦ ground (arith, e, other)
          | inr (x, e) ↦
              ground (
                arith,
                e,
                other,
                with_key-apart id j x other (select_one-meets (with_key j) xs x e),
              )
        ]
      ]

  pub view-delete :
      (id j : String) (xs : List A)
      → view (delete_where (with_key id) xs) j ≡ put id none (view xs) j
  view-delete id j xs = elim (Bool-cases (str_eq id j)) [
    | inl here ↦ ground (
      arith,
      here,
      subst (λ i. view (delete_where (with_key id) xs) i ≡ none) ((eq_iff id j).0 here)
          (select_one-delete_self (with_key id) xs),
    )
    | inr other ↦ ground (
      arith,
      other,
      select_one-delete_other (with_key id) (with_key j) xs (λ x e. with_key-apart id j x other e),
    )
  ]

  pub view-append :
      (row : A) (xs : List A) (j : String)
      → view xs (id_of row) ≡ none
      → view (xs ++ row ∷ []) j ≡ put (id_of row) (some row) (view xs) j
  view-append row xs j fresh =
      select_one-append (with_key j) xs (row ∷ []) ∙ elim (Bool-cases (str_eq (id_of row) j)) [
        | inl here ↦
            let empty : view xs j ≡ none =
              subst (λ i. view xs i ≡ none) ((eq_iff (id_of row) j).0 here) fresh in
            ground (arith, here, empty)
        | inr other ↦ elim (Option-cases (view xs j)) [
          | inl e ↦ ground (arith, other, e)
          | inr (x, e) ↦ ground (arith, other, e)
        ]
      ]
