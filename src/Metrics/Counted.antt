-- ===== src/Metrics/Counted.antt =====
-- However the calls of RecordStatusCode of internal/metrics/metrics.go interleave, their counts add up.
use go_key_pool_system.Prelude.{
  ◌≡◌, ◌≢◌, ◌∙◌, refl, ap, subst, ℕ, ◌<◌, none, some, inl, inr, get_elem?, set, arith, Option-cases,
  ℕ_discrete,
}
use go_key_pool_system.Prelude.Store.{update_self, update_ne}
use go_key_pool_system.Metrics.{
  Phase, started, found, missing, returned, Metrics, new, look_up, create, created, Step, calls_it,
  reads, adds, writes, Reach, here, next, count_of,
}
use go_key_pool_system.Metrics.Phases.{recorded, recorded-set, one_if-same, one_if-other}
use go_key_pool_system.Metrics.Invariant.{
  Held, IsCounted, moved-Held, moves-IsCounted, begins-IsCounted, count_of-some, count_of-none,
  none-some, add-IsCounted,
}

created_same : (m : Metrics) (i code : ℕ) → (created m i code).status_codes code ≡ some m.fresh
created_same m i code = ground arith

created_other :
    (m : Metrics) (i code c : ℕ) → code ≢ c → (created m i code).status_codes c ≡ m.status_codes c
created_other m i code c other = ground (arith, other)

created-counted :
    (m : Metrics) (i code c : ℕ)
    → get_elem? m.calls i ≡ some (missing code)
    → m.status_codes code ≡ none
    → IsCounted m
    → count_of (created m i code) c ≡ recorded c (set m.calls i (returned code))
created-counted m i code c e absent h =
    let placed = recorded-set c m.calls i (missing code) (returned code) e in
    elim (ℕ_discrete code c) [
      | yes same ↦
          count_of-some (created m i code) c m.fresh (
            subst (λ d. (created m i code).status_codes d ≡ some m.fresh) same
              (created_same m i code))
          ∙ update_self m.counters m.fresh 1
          ∙ omega (
            arith,
            placed,
            one_if-same code c same,
            h.counted c,
            count_of-none m c (subst (λ d. m.status_codes d ≡ none) same absent),
          )
      | no other ↦ elim (Option-cases (m.status_codes c)) [
        | inl none_there ↦
            count_of-none (created m i code) c (created_other m i code c other ∙ none_there)
            ∙ omega (
              arith,
              placed,
              one_if-other code c other,
              h.counted c,
              count_of-none m c none_there,
            )
        | inr (q, there) ↦
            let old : q < m.fresh = h.inside c q there in
            count_of-some (created m i code) c q (created_other m i code c other ∙ there)
            ∙ update_ne m.counters m.fresh q 1 (omega (arith, old))
            ∙ omega
                (arith, placed, one_if-other code c other, h.counted c, count_of-some m c q there)
      ]
    ]

created-Held :
    (m : Metrics) (i code : ℕ)
    → m.status_codes code ≡ none
    → (phase : Phase) → Held m phase
    → Held (created m i code) phase
created-Held m i code absent (found c p) h =
    created_other m i code c (λ same. none-some absent (ap m.status_codes same ∙ h)) ∙ h
created-Held m i code absent (started c) h = tt
created-Held m i code absent (missing c) h = tt
created-Held m i code absent (returned c) h = tt

create-IsCounted :
    (m : Metrics) (i code : ℕ)
    → get_elem? m.calls i ≡ some (missing code)
    → m.status_codes code ≡ none
    → IsCounted m
    → IsCounted (created m i code)
unfolding count_of
create-IsCounted m i code e absent h = record {
  counted = λ c. created-counted m i code c e absent h;
  inside = λ c p there. ground (arith, there, h.inside c p);
  apart = λ c d p there too. ground (arith, there, too, h.apart c d p, h.inside c p, h.inside d p);
  held = moved-Held m (created m i code) i (returned code) (created-Held m i code absent) tt h;
}

Step-IsCounted : {m after : Metrics} → Step m after → IsCounted m → IsCounted after
unfolding look_up create
Step-IsCounted {m = m} (calls_it code) h = begins-IsCounted m code h
Step-IsCounted {m = m} (reads i code e) h = elim (Option-cases (m.status_codes code)) [
  | inl absent ↦
      rw (look_up, absent)
        (moves-IsCounted m i (started code) (missing code) e (λ c. refl) (λ c. refl) tt h)
  | inr (p, there) ↦
      rw (look_up, there)
        (moves-IsCounted m i (started code) (found code p) e (λ c. refl) (λ c. refl) there h)
]
Step-IsCounted {m = m} (adds i code p e) h = add-IsCounted m i code p e h
Step-IsCounted {m = m} (writes i code e) h = elim (Option-cases (m.status_codes code)) [
  | inl absent ↦ rw (create, absent) (create-IsCounted m i code e absent h)
  | inr (p, there) ↦
      rw (create, there)
        (moves-IsCounted m i (missing code) (found code p) e (λ c. refl) (λ c. refl) there h)
]

Reach-IsCounted : {m : Metrics} → Reach m → IsCounted m
unfolding new count_of recorded
Reach-IsCounted here = record {
  counted = λ code. refl;
  inside = λ code p e. ground (arith, e);
  apart = λ code other p e h. ground (arith, e);
  held = λ i phase e. ground (arith, e);
}
Reach-IsCounted (next r s) = Step-IsCounted s (Reach-IsCounted r)

-- However the calls of RecordStatusCode interleave, the count of each code is the number of its calls
-- that have returned: none is lost, and none counted twice.
pub Reach-counted : (m : Metrics) → Reach m → (code : ℕ) → count_of m code ≡ recorded code m.calls
Reach-counted m r code = (Reach-IsCounted r).counted code
