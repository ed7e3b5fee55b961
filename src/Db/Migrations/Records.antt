-- ===== src/Db/Migrations/Records.antt =====
-- Which migrations schema_migrations records, and which are left to run.
use go_key_pool_system.Prelude.{
  ◌≡◌, ◌∙◌, refl, subst, true, false, ◌||◌, List, [], ◌∷◌, ◌++◌, inl, inr, if◌then◌else◌, arith,
  Bool-cases, map,
}
use go_key_pool_system.Prelude.Int.{ℤ, eqb_ℤ}
use go_key_pool_system.Prelude.Members.{All, All-map}
use go_key_pool_system.Db.Migrations.{Migration, Applied, is_applied}

-- Every migration of the list is recorded.
abbrev pub AllApplied : List Migration → List Applied → Type 0
AllApplied ms rows = All (λ (m : Migration). is_applied m.version rows ≡ true) ms

-- The migrations that are not recorded, and their records.
abbrev pub pending : List Applied → List Migration → List Migration
pending before [] = []
pending before (m ∷ ms) =
    let rest = pending before ms in if is_applied m.version before then rest else m ∷ rest

abbrev pub records : List Migration → List Applied
records = map (λ (m : Migration). record { version = m.version; name = m.name })

is_applied-append :
    (version : ℤ) (rows others : List Applied)
    → is_applied version (rows ++ others) ≡ (is_applied version rows || is_applied version others)
is_applied-append version [] others = refl
is_applied-append version (row ∷ rows) others =
    ground (arith, is_applied-append version rows others)

-- One more record hides none.
is_applied-insert :
    (version : ℤ) (rows others : List Applied) (row : Applied)
    → is_applied version (rows ++ others) ≡ true
    → is_applied version (rows ++ row ∷ others) ≡ true
is_applied-insert version rows others row h =
    ground (
      arith,
      h,
      is_applied-append version rows others,
      is_applied-append version rows (row ∷ others),
    )

eqb_ℤ_self : (a : ℤ) → eqb_ℤ a a ≡ true
eqb_ℤ_self a = ground arith

pub pending-known :
    (before : List Applied) (m : Migration) (ms : List Migration)
    → is_applied m.version before ≡ true
    → pending before ms ≡ pending before (m ∷ ms)
pending-known before m ms known = rw known refl

pub pending-new :
    (before : List Applied) (m : Migration) (ms : List Migration)
    → is_applied m.version before ≡ false
    → m ∷ pending before ms ≡ pending before (m ∷ ms)
pending-new before m ms new = rw new refl

-- With their records added, all are recorded.
pub pending-AllApplied :
    (before : List Applied) (ms : List Migration)
    → AllApplied ms (before ++ records (pending before ms))
pending-AllApplied before [] = tt
pending-AllApplied before (m ∷ ms) =
    let added : List Applied = records (pending before ms) in
    elim (Bool-cases (is_applied m.version before)) [
      | inl known ↦
          subst (λ p. AllApplied (m ∷ ms) (before ++ records p)) (pending-known before m ms known)
            (is_applied-append m.version before added ∙ rw known refl, pending-AllApplied before ms)
      | inr new ↦
          subst (λ p. AllApplied (m ∷ ms) (before ++ records p)) (pending-new before m ms new)
            (
              is_applied-append m.version before (records (m ∷ pending before ms))
                  ∙ rw (new, eqb_ℤ_self m.version) refl,
              All-map ms
                  (λ other.
                    is_applied-insert other.version before added
                      (record { version = m.version; name = m.name }))
                  (pending-AllApplied before ms),
            )
    ]
