-- ===== src/Keypool/WeightedRoundRobin/Balance.antt =====
-- One call of Select in internal/keypool/weightedrr.go on a balanced state: it stays balanced.
use go_key_pool_system.Prelude.{
  ℕ, ◌≡◌, ◌≢◌, refl, sym, ap, subst, ◌∙◌, inl, inr, String, none, some, List, [], ◌∷◌,
  if◌then◌else◌, str_eq, eq_iff, dec_lt, Bool-cases, str_eq_self, str_eq_ne,
}
use go_key_pool_system.Prelude.Int.{
  ℤ, pos, negsuc, ◌+ℤ◌, ◌-ℤ◌, ◌≤ℤ◌, ◌<ℤ◌, int_laws, parts, pos_part, neg_part,
}
use go_key_pool_system.Prelude.Members.{
  All, In, All-map, All-In, All-of_In, sum, sum-cong, sum_add, sum_nonpos,
}
use go_key_pool_system.Keypool.PoolKey.{PoolKey}
use go_key_pool_system.Keypool.WeightedRoundRobin.{Weights, assign, accumulate, highest, select}
use go_key_pool_system.Keypool.WeightedRoundRobin.Accumulate.{
  id_of, weight_of, Distinct, accumulate-total, accumulate-weights, gain_own, highest-Best,
}

module _ (store : ℕ → PoolKey) where
  -- A payment by one key of a list with distinct IDs lowers the sum by as much.
  sum_unpaid :
      (f : ℕ → ℤ) (t : ℤ) (s : String) (ks : List ℕ)
      → All (λ j. s ≢ id_of store j) ks
      → sum (λ j. if str_eq (id_of store j) s then f j -ℤ t else f j) ks ≡ sum f ks
  sum_unpaid f t s ks h =
      sum-cong _ _ ks
        (All-map ks (λ j ne. rw (str_eq_ne (id_of store j) s (λ e. ne (sym e))) refl) h)

  sum_paid :
      (f : ℕ → ℤ) (t : ℤ) (k : ℕ) (ks : List ℕ)
      → Distinct store ks
      → In k ks
      → sum (λ j. if str_eq (id_of store j) (id_of store k) then f j -ℤ t else f j) ks
        ≡ sum f ks -ℤ t
  unfolding sum
  sum_paid f t k [] d m = absurd m
  sum_paid f t k (j ∷ ks) d (inl e) =
      subst
        (λ x.
          sum (λ j. if str_eq (id_of store j) (id_of store x) then f j -ℤ t else f j) (j ∷ ks)
          ≡ sum f (j ∷ ks) -ℤ t)
        (sym e)
        (rw (str_eq_self (id_of store j))
          (omega (int_laws, parts (sum_unpaid f t (id_of store j) ks d.0))))
  sum_paid f t k (j ∷ ks) d (inr m) =
      rw (str_eq_ne (id_of store j) (id_of store k) (All-In _ ks k d.0 m))
        (omega (int_laws, parts (sum_paid f t k ks d.1 m)))

  select_found :
      (w : Weights) (k : ℕ) (ks : List ℕ)
      → highest store (accumulate store ks (pos 0) w).1 ks (negsuc 0) none ≡ some k
      → In k ks
      → let raised = (accumulate store ks (pos 0) w).1 in
        select store w ks ≡ (
          some k,
          assign raised (id_of store k) (raised (id_of store k) -ℤ sum (weight_of store) ks),
        )
  unfolding select
  select_found w k [] e m = absurd m
  select_found w k (j ∷ ks) e m =
      let whole : (accumulate store (j ∷ ks) (pos 0) w).0 ≡ sum (weight_of store) (j ∷ ks) =
        accumulate-total store (j ∷ ks) (pos 0) w ∙ omega int_laws in
      rw (e, whole) refl

module _ (store : ℕ → PoolKey) (ks : List ℕ) where
  abbrev pub total : ℤ
  total = sum (weight_of store) ks

  -- The keys that a run is about: told apart by their IDs, of weights that are not negative and
  -- not all 0.
  pub record IsWeighted : Type 0 where
    pub distinct : Distinct store ks
    pub nonneg : All (λ k. pos 0 ≤ℤ weight_of store k) ks
    pub positive : pos 0 <ℤ total

  -- The current weights sum to 0, and none is down by the total weight.
  pub record IsBalanced (w : Weights) : Type 0 where
    pub balance : sum (λ k. w (id_of store k)) ks ≡ pos 0
    pub bounded : All (λ k. pos 0 <ℤ w (id_of store k) +ℤ total) ks

  -- What one call does: a key of the list is chosen, each key gains its weight, and the chosen one
  -- pays the total.
  pub record Chooses (w : Weights) (k : ℕ) (w' : Weights) : Type 0 where
    pub member : In k ks
    pub balanced : IsBalanced w'
    pub changes :
        (j : ℕ)
        → In j ks
        → w' (id_of store j) ≡ (
            if str_eq (id_of store j) (id_of store k)
            then w (id_of store j) +ℤ weight_of store j -ℤ total
            else w (id_of store j) +ℤ weight_of store j)

  abbrev raised : Weights → Weights
  raised w = (accumulate store ks (pos 0) w).1

  raised_member :
      (w : Weights) (j : ℕ)
      → IsWeighted
      → In j ks
      → raised w (id_of store j) ≡ w (id_of store j) +ℤ weight_of store j
  raised_member w j c m =
      accumulate-weights store ks (pos 0) w (id_of store j)
      ∙ ap (◌+ℤ◌ (w (id_of store j))) (gain_own store ks j c.distinct m)

  raised-sum :
      (w : Weights) → IsWeighted → IsBalanced w → sum (λ k. raised w (id_of store k)) ks ≡ total
  raised-sum w c b =
      sum-cong _ _ ks (All-of_In ks (λ j m. raised_member w j c m))
      ∙ sum_add (λ k. w (id_of store k)) (weight_of store) ks
      ∙ rw b.balance (omega int_laws)

  raised-best :
      (w : Weights)
      → IsWeighted
      → IsBalanced w
      → (k : ℕ) × (highest store (raised w) ks (negsuc 0) none ≡ some k)
        × In k ks
        × (pos 0 <ℤ raised w (id_of store k))
  raised-best w c b = elim (highest-Best store (raised w) ks (negsuc 0) none) [
    | inl (e, low) ↦
        let none_left =
          sum_nonpos (λ k. raised w (id_of store k)) ks (All-map ks (λ a h. omega int_laws) low) in
        absurd (omega (int_laws, parts (raised-sum w c b), none_left, c.positive))
    | inr (k, e, m, above, low) ↦ (
      k,
      e,
      m,
      elim (dec_lt (neg_part (raised w (id_of store k))) (pos_part (raised w (id_of store k)))) [
        | yes p ↦ omega (int_laws, above)
        | no p ↦
            let none_left =
              sum_nonpos (λ j. raised w (id_of store j)) ks
                (All-map ks (λ a h. omega (int_laws, above)) low) in
            absurd (omega (int_laws, parts (raised-sum w c b), none_left, c.positive))
      ],
    )
  ]

  abbrev paid : Weights → ℕ → Weights
  paid w k = assign (raised w) (id_of store k) (raised w (id_of store k) -ℤ total)

  paid_split :
      (w : Weights) (k j : ℕ)
      → paid w k (id_of store j) ≡ (
          if str_eq (id_of store j) (id_of store k)
          then raised w (id_of store j) -ℤ total
          else raised w (id_of store j))
  paid_split w k j = elim (Bool-cases (str_eq (id_of store j) (id_of store k))) [
    | inl hit ↦ rw hit (ap (λ s. raised w s -ℤ total) (sym ((eq_iff _ _).0 hit)))
    | inr miss ↦ rw miss refl
  ]

  paid_member :
      (w : Weights) (k j : ℕ)
      → IsWeighted
      → In j ks
      → paid w k (id_of store j) ≡ (
          if str_eq (id_of store j) (id_of store k)
          then w (id_of store j) +ℤ weight_of store j -ℤ total
          else w (id_of store j) +ℤ weight_of store j)
  paid_member w k j c m = rw (paid_split w k j, raised_member w j c m) refl

  paid-IsBalanced :
      (w : Weights) (k : ℕ)
      → IsWeighted
      → IsBalanced w
      → In k ks
      → pos 0 <ℤ raised w (id_of store k)
      → IsBalanced (paid w k)
  paid-IsBalanced w k c b m above = record {
    balance =
        sum-cong _ _ ks (All-of_In ks (λ j _. paid_split w k j))
        ∙ sum_paid store (λ j. raised w (id_of store j)) total k ks c.distinct m
        ∙ omega (int_laws, parts (raised-sum w c b));
    bounded = All-of_In ks λ j i. paid_above j i;
  }
    where
      paid_above : (j : ℕ) → In j ks → pos 0 <ℤ paid w k (id_of store j) +ℤ total
      paid_above j i = elim (Bool-cases (str_eq (id_of store j) (id_of store k))) [
        | inl hit ↦ rw hit (omega (int_laws, above))
        | inr miss ↦ rw miss (
            omega (
              int_laws,
              parts (raised_member w j c i),
              All-In _ ks j b.bounded i,
              All-In _ ks j c.nonneg i,
            ))
      ]

  -- Select on a balanced state finds a key and keeps the balance.
  pub select-Chooses :
      (w : Weights)
      → IsWeighted
      → IsBalanced w
      → (k : ℕ) × (w' : Weights) × (select store w ks ≡ (some k, w')) × Chooses w k w'
  select-Chooses w c b =
      let (k, e, m, above) = raised-best w c b in
      (
        k,
        paid w k,
        select_found store w k ks e m,
        record {
          member = m;
          balanced = paid-IsBalanced w k c b m above;
          changes = λ j i. paid_member w k j c i;
        },
      )
