-- ===== src/Metrics/Invariant.antt =====
-- What holds of the counters of internal/metrics/metrics.go between two steps, and that the steps other
-- than the one under the write lock keep it.
use go_key_pool_system.Prelude.{
  ◌≡◌, ◌≢◌, ◌∙◌, refl, sym, ap, subst, ℕ, ◌+◌, ◌<◌, Option, none, some, [], ◌∷◌, ◌++◌, inl, inr,
  get_elem?, set, arith, Option-cases, ℕ_discrete,
}
use go_key_pool_system.Prelude.Store.{update, update_self, update_ne}
use go_key_pool_system.Metrics.{
  Phase, started, found, missing, returned, Metrics, at, add, count_of,
}
use go_key_pool_system.Metrics.Phases.{
  one_if, recorded, recorded-append, recorded-set, get_elem?-set-cases, get_elem?-append-cases,
  one_if-same, one_if-other,
}

-- A counter that a call holds is that of its code.
abbrev pub Held : Metrics → Phase → Type 0
Held m (found code p) = m.status_codes code ≡ some p
Held m (started code) = Unit
Held m (missing code) = Unit
Held m (returned code) = Unit

pub record IsCounted (m : Metrics) : Type 0 where
  pub counted : (code : ℕ) → count_of m code ≡ recorded code m.calls
  pub inside : (code p : ℕ) → m.status_codes code ≡ some p → p < m.fresh
  pub apart :
      (code other p : ℕ)
      → m.status_codes code ≡ some p
      → m.status_codes other ≡ some p
      → code ≡ other
  pub held : (i : ℕ) (phase : Phase) → get_elem? m.calls i ≡ some phase → Held m phase

-- Where no entry of the map changes.
same_Held :
    (m after : Metrics)
    → ((code : ℕ) → after.status_codes code ≡ m.status_codes code)
    → (phase : Phase) → Held m phase
    → Held after phase
same_Held m after same (found code p) h = same code ∙ h
same_Held m after same (started code) h = tt
same_Held m after same (missing code) h = tt
same_Held m after same (returned code) h = tt

-- The calls hold what they should after one has moved on.
pub moved-Held :
    (m after : Metrics) (i : ℕ) (phase : Phase)
    → ((other : Phase) → Held m other → Held after other)
    → Held after phase
    → IsCounted m
    → (j : ℕ) (other : Phase) → get_elem? (set m.calls i phase) j ≡ some other
    → Held after other
moved-Held m after i phase keeps holds h j other e =
    elim (get_elem?-set-cases m.calls i j phase other e) [
      | inl same ↦ subst (Held after) (sym same) holds
      | inr there ↦ keeps other (h.held j other there)
    ]

-- A call that moves on, and neither begins nor ends.
pub moves-IsCounted :
    (m : Metrics) (i : ℕ) (old phase : Phase)
    → get_elem? m.calls i ≡ some old
    → ((code : ℕ) → one_if code old ≡ 0)
    → ((code : ℕ) → one_if code phase ≡ 0)
    → Held m phase
    → IsCounted m
    → IsCounted (at m i phase)
unfolding count_of
moves-IsCounted m i old phase e quiet silent holds h = record {
  counted = λ code.
      h.counted code
      ∙ omega (arith, recorded-set code m.calls i old phase e, quiet code, silent code);
  inside = h.inside;
  apart = h.apart;
  held =
      moved-Held m (at m i phase) i phase (λ other. same_Held m (at m i phase) (λ c. refl) other)
        holds h;
}

pub begins-IsCounted :
    (m : Metrics) (code : ℕ)
    → IsCounted m
    → IsCounted (record m { calls = m.calls ++ started code ∷ [] })
unfolding count_of recorded
begins-IsCounted m code h = record {
  counted = λ c. h.counted c ∙ omega (arith, recorded-append c m.calls (started code ∷ []));
  inside = h.inside;
  apart = h.apart;
  held = λ i phase e. elim (get_elem?-append-cases m.calls i (started code) phase e) [
    | inl same ↦ subst (Held (record m { calls = m.calls ++ started code ∷ [] })) (sym same) tt
    | inr there ↦
        same_Held m (record m { calls = m.calls ++ started code ∷ [] }) (λ c. refl) phase
          (h.held i phase there)
  ];
}

pub count_of-some :
    (m : Metrics) (c q : ℕ) → m.status_codes c ≡ some q → count_of m c ≡ m.counters q
unfolding count_of
count_of-some m c q e = rw (count_of, e) refl

pub count_of-none : (m : Metrics) (c : ℕ) → m.status_codes c ≡ none → count_of m c ≡ 0
unfolding count_of
count_of-none m c e = rw (count_of, e) refl

pub none-some : {o : Option ℕ} {p : ℕ} → o ≡ none → o ≡ some p → ⊥
none-some e h = ground (arith, e, h)

some_inj : {o : Option ℕ} {p q : ℕ} → o ≡ some p → o ≡ some q → p ≡ q
some_inj e h = ground (arith, e, h)

add-counted :
    (m : Metrics) (i code p c : ℕ)
    → get_elem? m.calls i ≡ some (found code p)
    → IsCounted m
    → count_of (add m i code p) c ≡ recorded c (set m.calls i (returned code))
unfolding add
add-counted m i code p c e h =
    let mine : m.status_codes code ≡ some p = h.held i (found code p) e in
    let placed = recorded-set c m.calls i (found code p) (returned code) e in
    elim (Option-cases (m.status_codes c)) [
      | inl absent ↦
          let other : code ≢ c = λ same. none-some absent (ap m.status_codes (sym same) ∙ mine) in
          count_of-none (add m i code p) c absent
          ∙ omega (arith, placed, one_if-other code c other, h.counted c, count_of-none m c absent)
      | inr (q, there) ↦ elim (ℕ_discrete p q) [
        | yes same ↦
            let code_c : code ≡ c = h.apart code c p mine (there ∙ ap some (sym same)) in
            count_of-some (add m i code p) c q there
            ∙ ap (update m.counters p (m.counters p + 1)) (sym same)
            ∙ update_self m.counters p (m.counters p + 1)
            ∙ omega (
              arith,
              placed,
              one_if-same code c code_c,
              h.counted c,
              count_of-some m c q there,
              ap m.counters same,
            )
        | no differ ↦
            let other : code ≢ c =
              λ same. differ (some_inj mine (ap m.status_codes same ∙ there)) in
            count_of-some (add m i code p) c q there
            ∙ update_ne m.counters p q (m.counters p + 1) differ
            ∙ omega
                (arith, placed, one_if-other code c other, h.counted c, count_of-some m c q there)
      ]
    ]

pub add-IsCounted :
    (m : Metrics) (i code p : ℕ)
    → get_elem? m.calls i ≡ some (found code p)
    → IsCounted m
    → IsCounted (add m i code p)
unfolding add count_of
add-IsCounted m i code p e h = record {
  counted = λ c. add-counted m i code p c e h;
  inside = h.inside;
  apart = h.apart;
  held =
      moved-Held m (add m i code p) i (returned code)
        (λ other. same_Held m (add m i code p) (λ c. refl) other) tt h;
}
