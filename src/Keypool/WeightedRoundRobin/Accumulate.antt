-- ===== src/Keypool/WeightedRoundRobin/Accumulate.antt =====
-- The loops of Select in internal/keypool/weightedrr.go.
use go_key_pool_system.Prelude.{
  ℕ, ◌≡◌, ◌≢◌, refl, sym, ap, subst, ◌∙◌, ◌⊎◌, inl, inr, String, Option, some, List, [], ◌∷◌, arith,
  if◌then◌else◌, str_eq, eq_iff, Bool-cases, str_eq_self, str_eq_ne,
}
use go_key_pool_system.Prelude.Int.{ℤ, pos, ◌+ℤ◌, ◌≤ℤ◌, ◌<ℤ◌, ltb_ℤ, int_laws, parts, +ℤ_assoc}
use go_key_pool_system.Prelude.Members.{All, In, All-In, sum}
use go_key_pool_system.Keypool.PoolKey.{PoolKey}
use go_key_pool_system.Keypool.WeightedRoundRobin.{Weights, assign, accumulate, highest}

module _ (store : ℕ → PoolKey) where
  abbrev pub id_of : ℕ → String
  id_of k = (store k).id

  abbrev pub weight_of : ℕ → ℤ
  weight_of k = (store k).weight

  -- What the keys of the ID `s` weigh together.
  pub gain : String → List ℕ → ℤ
  gain s [] = pos 0
  gain s (k ∷ ks) = (if str_eq s (id_of k) then weight_of k else pos 0) +ℤ gain s ks

  abbrev pub Distinct : List ℕ → Type 0
  Distinct [] = Unit
  Distinct (k ∷ ks) = All (λ j. id_of k ≢ id_of j) ks × Distinct ks

  pub accumulate-total :
      (ks : List ℕ) (t : ℤ) (w : Weights) → (accumulate store ks t w).0 ≡ t +ℤ sum weight_of ks
  unfolding accumulate sum
  accumulate-total [] t w = omega int_laws
  accumulate-total (k ∷ ks) t w =
      accumulate-total ks (t +ℤ weight_of k) _ ∙ +ℤ_assoc t (weight_of k) (sum weight_of ks)

  pub accumulate-weights :
      (ks : List ℕ) (t : ℤ) (w : Weights) (s : String)
      → (accumulate store ks t w).1 s ≡ w s +ℤ gain s ks
  unfolding accumulate gain
  accumulate-weights [] t w s = omega int_laws
  accumulate-weights (k ∷ ks) t w s =
      let rest =
        accumulate-weights ks (t +ℤ weight_of k) (assign w (id_of k) (w (id_of k) +ℤ weight_of k))
          s in
      elim (Bool-cases (str_eq s (id_of k))) [
        | inl hit ↦
            rest ∙ rw (hit, assign) (omega (int_laws, parts (ap w ((eq_iff s (id_of k)).0 hit))))
        | inr miss ↦ rest ∙ rw (miss, assign) (omega int_laws)
      ]

  gain_absent : (s : String) (ks : List ℕ) → All (λ j. s ≢ id_of j) ks → gain s ks ≡ pos 0
  unfolding gain
  gain_absent s [] h = refl
  gain_absent s (k ∷ ks) h = rw (str_eq_ne s (id_of k) h.0, gain_absent s ks h.1) (omega int_laws)

  -- With distinct IDs a key gains its own weight.
  pub gain_own : (ks : List ℕ) (k : ℕ) → Distinct ks → In k ks → gain (id_of k) ks ≡ weight_of k
  unfolding gain
  gain_own [] k d m = absurd m
  gain_own (j ∷ ks) k d (inl e) =
      subst (λ x. gain (id_of x) (j ∷ ks) ≡ weight_of x) (sym e)
        (rw (str_eq_self (id_of j), gain_absent (id_of j) ks d.0) (omega int_laws))
  gain_own (j ∷ ks) k d (inr m) =
      rw (str_eq_ne (id_of k) (id_of j) (λ e. All-In _ ks k d.0 m (sym e)), gain_own ks k d.1 m)
        (omega int_laws)

  -- The key that the second loop ends with: the one given, if no current weight is above the
  -- bound, or else one of the highest current weight.
  abbrev pub Best : Weights → List ℕ → ℤ → Option ℕ → Option ℕ → Type 0
  Best w ks bound given r =
      ((r ≡ given) × All (λ j. w (id_of j) ≤ℤ bound) ks)
      ⊎ ((k : ℕ) × (r ≡ some k)
          × In k ks
          × (bound <ℤ w (id_of k))
          × All (λ j. w (id_of j) ≤ℤ w (id_of k)) ks)

  Best-raise :
      (w : Weights) (k : ℕ) (ks : List ℕ) (bound : ℤ) (given r : Option ℕ)
      → bound <ℤ w (id_of k)
      → Best w ks (w (id_of k)) (some k) r
      → Best w (k ∷ ks) bound given r
  Best-raise w k ks bound given r above (inl (e, low)) =
      inr (k, e, inl refl, above, (omega int_laws, low))
  Best-raise w k ks bound given r above (inr (j, e, m, higher, low)) =
      inr (j, e, inr m, omega int_laws, (omega int_laws, low))

  Best-keep :
      (w : Weights) (k : ℕ) (ks : List ℕ) (bound : ℤ) (given r : Option ℕ)
      → w (id_of k) ≤ℤ bound
      → Best w ks bound given r
      → Best w (k ∷ ks) bound given r
  Best-keep w k ks bound given r below (inl (e, low)) = inl (e, (below, low))
  Best-keep w k ks bound given r below (inr (j, e, m, higher, low)) =
      inr (j, e, inr m, higher, (omega int_laws, low))

  pub highest-Best :
      (w : Weights) (ks : List ℕ) (bound : ℤ) (given : Option ℕ)
      → Best w ks bound given (highest store w ks bound given)
  unfolding highest
  highest-Best w [] bound given = inl (refl, tt)
  highest-Best w (k ∷ ks) bound given = elim (Bool-cases (ltb_ℤ bound (w (id_of k)))) [
    | inl above ↦
        rw above (
          Best-raise w k ks bound given _ (ground arith) (highest-Best w ks (w (id_of k)) (some k)))
    | inr below ↦
        rw below (Best-keep w k ks bound given _ (ground arith) (highest-Best w ks bound given))
  ]
