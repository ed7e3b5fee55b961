-- ===== src/Keypool/WeightedRoundRobin/Starvation.antt =====
-- When Select in internal/keypool/weightedrr.go returns nil although there are keys.
use go_key_pool_system.Prelude.{ℕ, ◌≡◌, refl, ◌↔◌, inl, inr, none, List, [], ◌∷◌}
use go_key_pool_system.Prelude.Int.{pos, negsuc, parts, ◌+ℤ◌, ◌<ℤ◌, int_laws}
use go_key_pool_system.Prelude.Members.{All, All-map, All-In}
use go_key_pool_system.Keypool.PoolKey.{PoolKey}
use go_key_pool_system.Keypool.WeightedRoundRobin.{Weights, accumulate, select}
use go_key_pool_system.Keypool.WeightedRoundRobin.Accumulate.{
  id_of, gain, accumulate-weights, highest-Best,
}

module _ (store : ℕ → PoolKey) where
  -- No key's current weight reaches 0, even after the keys have gained their weights.
  abbrev pub Spent : Weights → List ℕ → Type 0
  Spent w ks = All (λ j. (w (id_of store j) +ℤ gain store (id_of store j) ks) <ℤ pos 0) ks

  -- Select returns no key exactly when every current weight stays below 0: the list need not be
  -- empty.
  pub select-none_iff : (w : Weights) (ks : List ℕ) → ((select store w ks).0 ≡ none) ↔ Spent w ks
  unfolding select
  select-none_iff w [] = (λ e. tt, λ h. refl)
  select-none_iff w (k ∷ ks) =
      let gained = accumulate-weights store (k ∷ ks) (pos 0) w in
      elim (highest-Best store (accumulate store (k ∷ ks) (pos 0) w).1 (k ∷ ks) (negsuc 0) none) [
        | inl (e, low) ↦ rw e (
          (λ _. All-map (k ∷ ks) (λ i h. omega (int_laws, parts (gained (id_of store i)))) low),
          (λ _. refl),
        )
        | inr (j, e, m, above, low) ↦ rw e (
          (λ bad. cc),
          (λ h.
              absurd
                (omega (int_laws, above, All-In _ (k ∷ ks) j h m, parts (gained (id_of store j))))),
        )
      ]
