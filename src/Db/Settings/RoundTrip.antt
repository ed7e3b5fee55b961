-- ===== src/Db/Settings/RoundTrip.antt =====
-- What is written to system_config is what is read back.
use go_key_pool_system.Prelude.{
  ◌≡◌, refl, sym, ap, subst, ℕ, String, Bool, true, false, none, some, List, [], ◌∷◌, ◌++◌, ◌⊎◌,
  inl, inr, arith, Bool-cases, if◌then◌else◌, str_eq, eq_iff,
}
use go_key_pool_system.Db.Table.{ok, is_some, select_one, update_where}
use go_key_pool_system.Db.Settings.{
  Setting, SettingMap, settings_map, get_system_config, with_setting, with_value,
  update_system_config,
}

-- The map after one more assignment.
abbrev pub assigned : String → String → SettingMap → SettingMap
assigned key value config j = if str_eq key j then some value else config j

settings_map-append :
    (rows : List Setting) (row : Setting) (config : SettingMap) (j : String)
    → settings_map (rows ++ row ∷ []) config j
      ≡ assigned row.key row.value (settings_map rows config) j
unfolding settings_map
settings_map-append [] row config j = refl
settings_map-append (first ∷ rows) row config j = settings_map-append rows row _ j

-- The update of one key is not seen at another.
settings_map-update_other :
    (rows : List Setting) (now : ℕ) (key value : String) (config other : SettingMap) (j : String)
    → str_eq key j ≡ false
    → config j ≡ other j
    → settings_map (update_where (with_setting key) (with_value now value) rows) config j
      ≡ settings_map rows other j
unfolding settings_map
settings_map-update_other [] now key value config other j apart e = e
settings_map-update_other (row ∷ rows) now key value config other j apart e =
    settings_map-update_other rows now key value _ _ j apart
      (elim (Bool-cases (str_eq row.key key)) [
        | inl same ↦
            let not_j : str_eq row.key j ≡ false =
              subst (λ k. str_eq k j ≡ false) (sym ((eq_iff row.key key).0 same)) apart in
            rw (same, not_j, e) refl
        | inr differ ↦ rw (differ, e) refl
      ])

-- Where a row has the key, the update is what is read.
settings_map-update_self :
    (rows : List Setting) (now : ℕ) (key value : String) (config : SettingMap)
    → (is_some (select_one (with_setting key) rows) ≡ true) ⊎ (config key ≡ some value)
    → settings_map (update_where (with_setting key) (with_value now value) rows) config key
      ≡ some value
unfolding settings_map
settings_map-update_self [] now key value config (inl h) = ground arith
settings_map-update_self [] now key value config (inr h) = h
settings_map-update_self (row ∷ rows) now key value config there =
    settings_map-update_self rows now key value _ (elim (Bool-cases (str_eq row.key key)) [
      | inl same ↦ inr (rw (same, same) refl)
      | inr differ ↦ elim there [
        | inl h ↦ inl (ground (arith, h, differ))
        | inr h ↦ inr (rw (differ, differ, h) refl)
      ]
    ])

update_system_config-assigned :
    (now : ℕ) (key value : String) (settings : List Setting) (j : String)
    → settings_map (update_system_config true now key value settings).1 (λ k. none) j
      ≡ assigned key value (settings_map settings (λ k. none)) j
unfolding update_system_config
update_system_config-assigned now key value settings j =
    elim (Bool-cases (is_some (select_one (with_setting key) settings))) [
      | inl there ↦ elim (Bool-cases (str_eq key j)) [
        | inl same ↦
            rw (there, same)
              (subst
                (λ k.
                  settings_map (update_where (with_setting key) (with_value now value) settings)
                    (λ i. none) k
                  ≡ some value)
                ((eq_iff key j).0 same)
                (settings_map-update_self settings now key value (λ k. none) (inl there)))
        | inr apart ↦
            rw (there, apart)
              (settings_map-update_other settings now key value (λ k. none) (λ k. none) j apart
                refl)
      ]
      | inr absent ↦ rw absent (
          settings_map-append settings
            (record { key = key; value = value; description = none; updated_at = now }) (λ k. none)
            j)
    ]

-- What UpdateSystemConfig has written is what GetSystemConfig then gives under its key, with what it
-- gave before under every other key; an update that fails has changed nothing.
pub get_system_config-update_system_config :
    (up : Bool) (now : ℕ) (key value : String) (settings : List Setting)
    → get_system_config true (update_system_config up now key value settings).1
      ≡ ok (
          if up
          then assigned key value (settings_map settings (λ k. none))
          else settings_map settings (λ k. none))
unfolding get_system_config update_system_config
get_system_config-update_system_config true now key value settings =
    ap ok (λ i j. update_system_config-assigned now key value settings j i)
get_system_config-update_system_config false now key value settings = refl
