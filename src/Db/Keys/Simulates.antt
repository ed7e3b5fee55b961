-- ===== src/Db/Keys/Simulates.antt =====
-- Each operation on the table of keys does what it promises of the map.
use go_key_pool_system.Prelude.{
  ◌≡◌, ◌∙◌, refl, sym, ap, subst, ℕ, String, Bool, true, false, Option, none, some, List, inl, inr,
  not, ◌==◌, str_eq, Bool-cases, Option-cases, eq_iff,
}
use go_key_pool_system.Db.Adapter.{ApiKey}
use go_key_pool_system.Db.Table.{
  Answer, update_where, delete_where, is_some, is_taken, Unique, exec, exec_expecting_one_row,
  rows_affected,
}
use go_key_pool_system.Db.Table.Laws.{
  rows_affected-none, Unique-update, Unique-delete, Unique-append,
}
use go_key_pool_system.Db.Table.Rows.{view, bind, put, view-update, view-delete, view-append}
use go_key_pool_system.Db.Keys.{
  key_id, with_id, inserted, create, update_weight, update_health, update_last_used,
  update_concurrent, delete, reset_circuit, KeyCall, create_call, weight_call, health_call,
  last_used_call, concurrent_call, delete_call, reset_call, carry_out, reweighted, with_health,
  used, with_concurrent, with_circuit_reset,
}
use go_key_pool_system.Db.Keys.KeyMap.{KeyMap, at_key, at_any_key, promised}

-- What the table holds under each ID.
abbrev pub view_of : List ApiKey → KeyMap
view_of = view (λ key. key.id)

-- A table and a map that agree, with unique IDs in the table.
pub record Agrees (keys : List ApiKey) (m : KeyMap) : Type 0 where
  pub unique : Unique key_id keys
  pub same : (id : String) → view_of keys id ≡ m id

pub record Simulates (done : Answer Unit × List ApiKey) (meant : Answer Unit × KeyMap)
    : Type 0 where
  pub answers : done.0 ≡ meant.0
  pub agrees : Agrees done.1 meant.1

bind-none : (o : Option ApiKey) → bind o (λ key. none) ≡ none
bind-none none = refl
bind-none (some key) = refl

taken-view :
    (keys : List ApiKey) (id : String) → is_taken key_id (some id) keys ≡ is_some (view_of keys id)
taken-view keys id = refl

-- Another entry, in maps that agree.
put-same :
    (id j : String) {o o2 : Option ApiKey} {m m2 : KeyMap}
    → o ≡ o2
    → ((i : String) → m i ≡ m2 i)
    → put id o m j ≡ put id o2 m2 j
put-same id j e same = rw (e, same j) refl

put-none : (id j : String) (m : KeyMap) → m id ≡ none → put id none m j ≡ m j
put-none id j m e = elim (Bool-cases (str_eq id j)) [
  | inl here ↦ rw here (sym (subst (λ i. m i ≡ none) ((eq_iff id j).0 here) e))
  | inr other ↦ rw other refl
]

rows_affected-found :
    (id : String) (keys : List ApiKey)
    → (rows_affected (with_id id) keys == 0) ≡ not (is_some (view_of keys id))
rows_affected-found id keys = rows_affected-none (with_id id) keys

at_key-Simulates :
    (up : Bool) (id : String) (change : ApiKey → Option ApiKey) (after keys : List ApiKey)
    (m : KeyMap)
    → Agrees keys m
    → Unique key_id after
    → ((j : String) → view_of after j ≡ put id (bind (view_of keys id) change) (view_of keys) j)
    → Simulates (exec_expecting_one_row up (with_id id) after keys) (at_key up id change m)
unfolding exec_expecting_one_row
at_key-Simulates false id change after keys m agree unique found = record {
  answers = refl;
  agrees = agree;
}
at_key-Simulates true id change after keys m agree unique found =
    elim (Option-cases (view_of keys id)) [
      | inl e ↦
          let zero : (rows_affected (with_id id) keys == 0) ≡ true =
            rows_affected-found id keys ∙ ap (λ o. not (is_some o)) e in
          let missing : m id ≡ none = sym (agree.same id) ∙ e in
          let kept : (j : String) → view_of after j ≡ m j = λ j.
            found j
            ∙ put-same id j (ap (λ o. bind o change) e) agree.same
            ∙ put-none id j m missing in
          rw (zero, missing)
            (record { answers = refl; agrees = record { unique = unique; same = kept } })
      | inr (key, e) ↦
          let some_row : (rows_affected (with_id id) keys == 0) ≡ false =
            rows_affected-found id keys ∙ ap (λ o. not (is_some o)) e in
          let there : m id ≡ some key = sym (agree.same id) ∙ e in
          let changed : (j : String) → view_of after j ≡ put id (change key) m j =
            λ j. found j ∙ put-same id j (ap (λ o. bind o change) e) agree.same in
          rw (some_row, there)
            (record { answers = refl; agrees = record { unique = unique; same = changed } })
    ]

at_any_key-Simulates :
    (up : Bool) (id : String) (change : ApiKey → ApiKey) (keys : List ApiKey) (m : KeyMap)
    → ((key : ApiKey) → (change key).id ≡ key.id)
    → Agrees keys m
    → Simulates (exec up (update_where (with_id id) change keys) keys) (at_any_key up id change m)
at_any_key-Simulates false id change keys m keeps agree = record { answers = refl; agrees = agree }
at_any_key-Simulates true id change keys m keeps agree = record {
  answers = refl;
  agrees = record {
    unique =
        Unique-update key_id (with_id id) change keys (λ key. ap some (keeps key)) agree.unique;
    same = λ j.
        view-update (λ key. key.id) id j change keys keeps
        ∙ put-same id j (ap (λ o. bind o (λ key. some (change key))) (agree.same id)) agree.same;
  };
}

at_key_update-Simulates :
    (up : Bool) (id : String) (change : ApiKey → ApiKey) (keys : List ApiKey) (m : KeyMap)
    → ((key : ApiKey) → (change key).id ≡ key.id)
    → Agrees keys m
    → Simulates
        (exec_expecting_one_row up (with_id id) (update_where (with_id id) change keys) keys)
        (at_key up id (λ key. some (change key)) m)
at_key_update-Simulates up id change keys m keeps agree =
    at_key-Simulates up id (λ key. some (change key)) (update_where (with_id id) change keys) keys m
      agree
      (Unique-update key_id (with_id id) change keys (λ key. ap some (keeps key)) agree.unique)
      (λ j. view-update (λ key. key.id) id j change keys keeps)

create-Simulates :
    (up : Bool) (now : ℕ) (key : ApiKey) (keys : List ApiKey) (m : KeyMap)
    → Agrees keys m
    → Simulates (create up now key keys) (promised up now (create_call key) m)
unfolding create inserted
create-Simulates false now key keys m agree = record { answers = refl; agrees = agree }
create-Simulates true now key keys m agree = elim (Option-cases (view_of keys key.id)) [
  | inl e ↦
      let fresh : is_taken key_id (some key.id) keys ≡ false =
        taken-view keys key.id ∙ ap is_some e in
      let missing : m key.id ≡ none = sym (agree.same key.id) ∙ e in
      rw (fresh, missing)
        (record {
          answers = refl;
          agrees = record {
            unique = Unique-append key_id keys (inserted now key) agree.unique fresh;
            same = λ j.
                view-append (λ key. key.id) (inserted now key) keys j e
                ∙ put-same key.id j refl agree.same;
          };
        })
  | inr (old, e) ↦
      let taken : is_taken key_id (some key.id) keys ≡ true =
        taken-view keys key.id ∙ ap is_some e in
      let there : m key.id ≡ some old = sym (agree.same key.id) ∙ e in
      rw (taken, there) (record { answers = refl; agrees = agree })
]

delete-Simulates :
    (up : Bool) (id : String) (keys : List ApiKey) (m : KeyMap)
    → Agrees keys m
    → Simulates (delete up id keys) (at_key up id (λ key. none) m)
unfolding delete
delete-Simulates up id keys m agree =
    at_key-Simulates up id (λ key. none) (delete_where (with_id id) keys) keys m agree
      (Unique-delete key_id (with_id id) keys agree.unique)
      (λ j.
        view-delete (λ key. key.id) id j keys
        ∙ put-same id j {m = view_of keys} (sym (bind-none (view_of keys id))) (λ i. refl))

pub carry_out-Simulates :
    (up : Bool) (now : ℕ) (call : KeyCall) (keys : List ApiKey) (m : KeyMap)
    → Agrees keys m
    → Simulates (carry_out up now call keys) (promised up now call m)
unfolding carry_out update_weight update_health update_last_used update_concurrent reset_circuit
carry_out-Simulates up now (create_call key) keys m agree = create-Simulates up now key keys m agree
carry_out-Simulates up now (weight_call id weight) keys m agree =
    at_key_update-Simulates up id (reweighted now weight) keys m (λ key. refl) agree
carry_out-Simulates up now (health_call id healthy count state) keys m agree =
    at_key_update-Simulates up id (with_health now healthy count state) keys m (λ key. refl) agree
carry_out-Simulates up now (last_used_call id) keys m agree =
    at_any_key-Simulates up id (used now) keys m (λ key. refl) agree
carry_out-Simulates up now (concurrent_call id delta) keys m agree =
    at_any_key-Simulates up id (with_concurrent now delta) keys m (λ key. refl) agree
carry_out-Simulates up now (delete_call id) keys m agree = delete-Simulates up id keys m agree
carry_out-Simulates up now (reset_call id) keys m agree =
    at_key_update-Simulates up id (with_circuit_reset now) keys m (λ key. refl) agree
