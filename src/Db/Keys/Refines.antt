-- ===== src/Db/Keys/Refines.antt =====
-- The table api_keys keeps its promise in every history of calls.
use go_key_pool_system.Prelude.{
  ◌≡◌, refl, ap, ℕ, String, Bool, true, Option, none, some, List, [], ◌∷◌,
}
use go_key_pool_system.Db.Adapter.{ApiKey}
use go_key_pool_system.Db.Table.{Answer, ok, err, not_found, Unique, query_row}
use go_key_pool_system.Db.Scan.{scan_api_key_same}
use go_key_pool_system.Db.Keys.{key_id, get, KeyCall, carry_out}
use go_key_pool_system.Db.Keys.KeyMap.{KeyMap, promised}
use go_key_pool_system.Db.Keys.Simulates.{view_of, Agrees, carry_out-Simulates}

-- GetAPIKey gives what the map holds.
get-view :
    (keys : List ApiKey) (id : String) (o : Option ApiKey)
    → view_of keys id ≡ o
    → get true id keys ≡ elim o [ none ↦ err not_found | some key ↦ ok key ]
unfolding get query_row
get-view keys id none e = rw e refl
get-view keys id (some key) e = rw e (ap ok (scan_api_key_same key))

-- A history: each call with whether the driver answers and the time of the database.
abbrev pub KeyHistory : Type 0
KeyHistory = List (Bool × ℕ × KeyCall)

-- The answers of a history, and the table after it.
abbrev pub table_run : KeyHistory → List ApiKey → List (Answer Unit) × List ApiKey
table_run [] keys = ([], keys)
table_run ((up, now, call) ∷ calls) keys =
    let (answer, after) = carry_out up now call keys in
    let (answers, last) = table_run calls after in (answer ∷ answers, last)

-- The same, of the map.
abbrev pub map_run : KeyHistory → KeyMap → List (Answer Unit) × KeyMap
map_run [] m = ([], m)
map_run ((up, now, call) ∷ calls) m =
    let (answer, after) = promised up now call m in
    let (answers, last) = map_run calls after in (answer ∷ answers, last)

table_run-Simulates :
    (calls : KeyHistory) (keys : List ApiKey) (m : KeyMap)
    → Agrees keys m
    → ((table_run calls keys).0 ≡ (map_run calls m).0)
      × Agrees (table_run calls keys).1 (map_run calls m).1
table_run-Simulates [] keys m agree = (refl, agree)
table_run-Simulates ((up, now, call) ∷ calls) keys m agree =
    let first = carry_out-Simulates up now call keys m agree in
    let others =
      table_run-Simulates calls (carry_out up now call keys).1 (promised up now call m).1
        first.agrees in
    (rw (first.answers, others.0) refl, others.1)

-- In every history of a new table of keys, whatever fails, the calls are answered as those of a
-- finite map from IDs to keys are, GetAPIKey then finds exactly what the map holds, and no two rows
-- have one ID.
pub table_run-Refines :
    (calls : KeyHistory)
    → ((table_run calls []).0 ≡ (map_run calls (λ id. none)).0)
      × ((id : String)
          → get true id (table_run calls []).1
            ≡ elim ((map_run calls (λ id. none)).1 id) [ none ↦ err not_found | some key ↦ ok key ])
      × Unique key_id (table_run calls []).1
table_run-Refines calls =
    let run =
      table_run-Simulates calls [] (λ id. none) (record { unique = tt; same = λ id. refl }) in
    (
      run.0,
      λ id. get-view (table_run calls []).1 id ((map_run calls (λ id. none)).1 id) (run.1.same id),
      run.1.unique,
    )
