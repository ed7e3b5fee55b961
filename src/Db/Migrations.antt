-- ===== src/Db/Migrations.antt =====
-- internal/db/migrations.go. What the scripts of the migrations do to the rest of the database, a
-- value of type `S`, is given, as are the answers of the driver and the files of the directory.
pub mod Records
pub mod Twice
use go_key_pool_system.Prelude.{
  ◌≡◌, String, Bool, true, false, ◌||◌, not, Option, none, some, List, [], ◌∷◌, ◌++◌, ◌⊎◌, inl, inr,
  if◌then◌else◌,
}
use go_key_pool_system.Prelude.Int.{ℤ, eqb_ℤ, ltb_ℤ}
use go_key_pool_system.Prelude.Texts.{has_suffix, split_two, trim_suffix}

pub record Migration : Type 0 where
  pub version : ℤ
  pub name : String
  pub filename : String
  pub sql : String

-- The step that failed.
pub data MigrationError : Type 0 where
  no_table no_directory bad_filename bad_version unreadable no_versions not_executed :
      MigrationError

-- A file of the directory, and what os.ReadFile gives of it.
pub record Entry : Type 0 where
  pub name : String
  pub is_dir : Bool
  pub content : Option String

-- One row of schema_migrations, and the database with that table.
pub record Applied : Type 0 where
  pub version : ℤ
  pub name : String

pub record Schema (S : Type 0) : Type 0 where
  pub applied : List Applied
  pub rest : S

-- The answers of the driver: whether the table can be created and read, a transaction begun and
-- committed, and what a script does, unless it fails.
pub record Driver (S : Type 0) : Type 0 where
  pub creates : Bool
  pub reads : Bool
  pub begins : Migration → Bool
  pub commits : Migration → Bool
  pub executes : String → S → Option S

-- applied[version]
abbrev pub is_applied : ℤ → List Applied → Bool
is_applied version [] = false
is_applied version (row ∷ rows) = eqb_ℤ row.version version || is_applied version rows

-- The migration of a file, or nothing for an entry that is skipped. Sscanf is given.
unfoldable pub parse_entry : (String → Option ℤ) → Entry → MigrationError ⊎ Option Migration
parse_entry scan entry =
    if entry.is_dir || not (has_suffix entry.name ".sql")
    then inr none
    else elim (split_two entry.name "_") [
      | none ↦ inl bad_filename
      | some parts ↦ elim (scan parts.0) [
        | none ↦ inl bad_version
        | some version ↦ elim entry.content [
          | none ↦ inl unreadable
          | some sql ↦ inr (
              some (record {
                version = version;
                name = trim_suffix parts.1 ".sql";
                filename = entry.name;
                sql = sql;
              }))
        ]
      ]
    ]

unfoldable pub parse_entries : (String → Option ℤ) → List Entry → MigrationError ⊎ List Migration
parse_entries scan [] = inr []
parse_entries scan (entry ∷ entries) =
    let rest = parse_entries scan entries in
    elim (parse_entry scan entry) [
      | inl e ↦ inl e
      | inr none ↦ rest
      | inr (some m) ↦ elim rest [ inl e ↦ inl e | inr ms ↦ inr (m ∷ ms) ]
    ]

-- The entries that os.ReadDir gives, and sort.Slice with the comparison of versions.
unfoldable pub load_migrations :
    ((Migration → Migration → Bool) → List Migration → List Migration)
    → (String → Option ℤ)
    → Option (List Entry)
    → MigrationError ⊎ List Migration
load_migrations sort scan none = inl no_directory
load_migrations sort scan (some entries) = elim (parse_entries scan entries) [
  | inl e ↦ inl e
  | inr ms ↦ inr (sort (λ x y. ltb_ℤ x.version y.version) ms)
]

module _ {S : Type 0} (driver : Driver S) where
  -- The transaction: without its commit nothing has happened. The version is the primary key.
  unfoldable pub execute_migration : Migration → Schema S → Option (Schema S)
  execute_migration m db =
      if not (driver.begins m) then none else elim (driver.executes m.sql db.rest) [
        | none ↦ none
        | some rest ↦
            if is_applied m.version db.applied
            then none
            else if driver.commits m
            then some (record {
              applied = db.applied ++ record { version = m.version; name = m.name } ∷ [];
              rest = rest;
            })
            else none
      ]

  -- The loop: `before` is what was applied when it began.
  unfoldable pub execute_pending :
      List Applied → List Migration → Schema S → Option MigrationError × Schema S
  execute_pending before [] db = (none, db)
  execute_pending before (m ∷ ms) db =
      let skipped = execute_pending before ms db in
      let executed : Option MigrationError × Schema S = elim (execute_migration m db) [
        | none ↦ (some not_executed, db)
        | some after ↦ execute_pending before ms after
      ] in
      if is_applied m.version before then skipped else executed

  -- RunMigrations, with what loadMigrations gives.
  unfoldable pub run_migrations :
      MigrationError ⊎ List Migration → Schema S → Option MigrationError × Schema S
  run_migrations loaded db = if not driver.creates then (some no_table, db) else elim loaded [
    | inl e ↦ (some e, db)
    | inr ms ↦ if not driver.reads then (some no_versions, db) else execute_pending db.applied ms db
  ]
