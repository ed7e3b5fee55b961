-- ===== src/Db/Migrations/Twice.antt =====
-- What a run of internal/db/migrations.go leaves behind, and a second one on it.
use go_key_pool_system.Prelude.{
  ◌≡◌, ◌∙◌, refl, sym, ap, subst, true, false, Option, none, some, List, [], ◌∷◌, ◌++◌, inl, inr,
  arith, Bool-cases, Option-cases,
}
use go_key_pool_system.Db.Migrations.{
  Migration, MigrationError, not_executed, Applied, Schema, Driver, is_applied, execute_migration,
  execute_pending, run_migrations,
}
use mathlib.Core.List.{append-nil, append_assoc}
use go_key_pool_system.Db.Migrations.Records.{
  AllApplied, pending, records, pending-known, pending-new, pending-AllApplied,
}

some-none : {e : MigrationError} → ◌≡◌ {A = Option MigrationError} (some e) none → ⊥
some-none h = ground (arith, h)

abbrev get_or : {A : Type 0} → Option A → A → A
get_or none d = d
get_or (some a) d = a

-- What a transaction that is committed leaves.
abbrev committed_schema : {S : Type 0} → Migration → Schema S → S → Schema S
committed_schema m db rest = record { applied = db.applied ++ records (m ∷ []); rest = rest }

-- Where all are recorded the loop does nothing.
execute_pending-nothing :
    {S : Type 0} (driver : Driver S) (before : List Applied) (ms : List Migration) (db : Schema S)
    → AllApplied ms before
    → execute_pending driver before ms db ≡ (none, db)
unfolding execute_pending
execute_pending-nothing driver before [] db h = refl
execute_pending-nothing driver before (m ∷ ms) db h =
    rw h.0 (execute_pending-nothing driver before ms db h.1)

module _ {S : Type 0} (driver : Driver S) where
  -- The scripts one after the other.
  abbrev pub scripts : List Migration → S → Option S
  scripts [] s = some s
  scripts (m ∷ ms) s = elim (driver.executes m.sql s) [
    | none ↦ none
    | some after ↦ scripts ms after
  ]

  -- A migration that is carried out adds its record and does what its script does.
  execute_migration-some :
      (m : Migration) (db after : Schema S)
      → execute_migration driver m db ≡ some after
      → (after.applied ≡ db.applied ++ records (m ∷ []))
        × (driver.executes m.sql db.rest ≡ some after.rest)
  unfolding execute_migration
  execute_migration-some m db after e = elim (Bool-cases (driver.begins m)) [
    | inr closed ↦ ground (arith, e, closed)
    | inl begun ↦ elim (Option-cases (driver.executes m.sql db.rest)) [
      | inl failed ↦ ground (arith, e, begun, failed)
      | inr (rest, ran) ↦ elim (Bool-cases (is_applied m.version db.applied)) [
        | inl twice ↦ ground (arith, e, begun, ran, twice)
        | inr once ↦ elim (Bool-cases (driver.commits m)) [
          | inr aborted ↦ ground (arith, e, begun, ran, once, aborted)
          | inl committed ↦
              let same : some (committed_schema m db rest) ≡ some after =
                sym (rw (execute_migration, begun, ran, once, committed) refl) ∙ e in
              (
                ap (λ o. (get_or o db).applied) (sym same),
                ran ∙ ap (λ o. some (get_or o db).rest) same,
              )
        ]
      ]
    ]
  ]

  executed-none :
      (before : List Applied) (m : Migration) (ms : List Migration) (db : Schema S)
      → is_applied m.version before ≡ false
      → execute_migration driver m db ≡ none
      → execute_pending driver before (m ∷ ms) db ≡ (some not_executed, db)
  unfolding execute_pending
  executed-none before m ms db new failed = rw (execute_pending, new, failed) refl

  executed-some :
      (before : List Applied) (m : Migration) (ms : List Migration) (db after : Schema S)
      → is_applied m.version before ≡ false
      → execute_migration driver m db ≡ some after
      → execute_pending driver before (m ∷ ms) db ≡ execute_pending driver before ms after
  unfolding execute_pending
  executed-some before m ms db after new ran = rw (execute_pending, new, ran) refl

  -- What a run of the loop without an error has done.
  abbrev Done : Schema S → List Migration → Schema S → Type 0
  Done db ms after =
      (after.applied ≡ db.applied ++ records ms) × (scripts ms db.rest ≡ some after.rest)

  -- One migration, and then the others.
  Done-cons :
      (m : Migration) (ms : List Migration) (db middle after : Schema S)
      → execute_migration driver m db ≡ some middle
      → Done middle ms after
      → Done db (m ∷ ms) after
  Done-cons m ms db middle after ran others =
      let (recorded, script) = execute_migration-some m db middle ran in
      (
        others.0 ∙ ap (λ rows. rows ++ records ms) recorded ∙ append_assoc db.applied _ _,
        ap (λ o. elim o as (λ x. Option S) [ none ↦ none | some a ↦ scripts ms a ]) script
            ∙ others.1,
      )

  execute_pending-Done :
      (before : List Applied) (ms : List Migration) (db : Schema S)
      → (execute_pending driver before ms db).0 ≡ none
      → Done db (pending before ms) (execute_pending driver before ms db).1
  unfolding execute_pending
  execute_pending-Done before [] db e = (sym (append-nil db.applied), refl)
  execute_pending-Done before (m ∷ ms) db e = elim (Bool-cases (is_applied m.version before)) [
    | inl known ↦
        let skipped : execute_pending driver before ms db
            ≡ execute_pending driver before (m ∷ ms) db =
          rw (execute_pending, known) refl in
        subst (λ p. Done db p (execute_pending driver before (m ∷ ms) db).1)
          (pending-known before m ms known)
          (subst (λ r. Done db (pending before ms) r.1) skipped
            (execute_pending-Done before ms db (ap (λ r. r.0) skipped ∙ e)))
    | inr new ↦ elim (Option-cases (execute_migration driver m db)) [
      | inl failed ↦
          absurd (some-none (sym (ap (λ r. r.0) (executed-none before m ms db new failed)) ∙ e))
      | inr (middle, ran) ↦
          let step = executed-some before m ms db middle new ran in
          subst (λ p. Done db p (execute_pending driver before (m ∷ ms) db).1)
            (pending-new before m ms new)
            (subst (λ r. Done db (m ∷ pending before ms) r.1) (sym step)
              (Done-cons m (pending before ms) db middle _ ran
                (execute_pending-Done before ms middle (sym (ap (λ r. r.0) step) ∙ e))))
    ]
  ]

  -- A run without an error has come to the loop.
  run_migrations-loop :
      (ms : List Migration) (db : Schema S)
      → (run_migrations driver (inr ms) db).0 ≡ none
      → run_migrations driver (inr ms) db ≡ execute_pending driver db.applied ms db
  unfolding run_migrations
  run_migrations-loop ms db e = elim (Bool-cases driver.creates) [
    | inr fails ↦ ground (arith, e, fails)
    | inl created ↦ elim (Bool-cases driver.reads) [
      | inr fails ↦ ground (arith, e, created, fails)
      | inl read ↦ rw (run_migrations, created, read) refl
    ]
  ]

  run_again :
      (again : Driver S) (ms : List Migration) (db : Schema S)
      → again.creates ≡ true
      → again.reads ≡ true
      → run_migrations again (inr ms) db ≡ execute_pending again db.applied ms db
  unfolding run_migrations
  run_again again ms db creates reads = rw (run_migrations, creates, reads) refl

  -- A run without an error has run exactly the scripts of the migrations that were not recorded, in
  -- their order, and has recorded these after the others; a second run with a driver that can create
  -- and read the table, whatever else it does, then gives no error and changes nothing.
  pub run_migrations_twice :
      (again : Driver S) (ms : List Migration) (db : Schema S)
      → (run_migrations driver (inr ms) db).0 ≡ none
      → again.creates ≡ true
      → again.reads ≡ true
      → let after = (run_migrations driver (inr ms) db).1 in
        (after.applied ≡ db.applied ++ records (pending db.applied ms))
        × (scripts (pending db.applied ms) db.rest ≡ some after.rest)
        × (run_migrations again (inr ms) after ≡ (none, after))
  run_migrations_twice again ms db e creates reads =
      let loop = run_migrations-loop ms db e in
      let (recorded, script) =
        subst (λ r. Done db (pending db.applied ms) r.1) (sym loop)
          (execute_pending-Done db.applied ms db (sym (ap (λ r. r.0) loop) ∙ e)) in
      let after = (run_migrations driver (inr ms) db).1 in
      (
        recorded,
        script,
        run_again again ms after creates reads
            ∙ execute_pending-nothing again after.applied ms after
                (subst (AllApplied ms) (sym recorded) (pending-AllApplied db.applied ms)),
      )
