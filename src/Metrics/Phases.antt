-- ===== src/Metrics/Phases.antt =====
-- How many calls have returned, as the calls of RecordStatusCode move on.
use go_key_pool_system.Prelude.{
  ◌≡◌, ◌≢◌, sym, ap, ℕ, suc, zero, ◌+◌, Option, none, some, List, [], ◌∷◌, ◌++◌, ◌⊎◌, inl, inr,
  get_elem?, set, ◌==◌, if◌then◌else◌, arith,
}
use go_key_pool_system.Metrics.{Phase, started, found, missing, returned}

-- How many calls for the code have returned.
abbrev pub one_if : ℕ → Phase → ℕ
one_if code (started c) = 0
one_if code (found c p) = 0
one_if code (missing c) = 0
one_if code (returned c) = if c == code then 1 else 0

unfoldable pub recorded : ℕ → List Phase → ℕ
recorded code [] = 0
recorded code (phase ∷ phases) = one_if code phase + recorded code phases

abbrev phase_or : Phase → Option Phase → Phase
phase_or d none = d
phase_or d (some phase) = phase

pub recorded-append :
    (code : ℕ) (xs ys : List Phase) → recorded code (xs ++ ys) ≡ recorded code xs + recorded code ys
unfolding recorded
recorded-append code [] ys = omega arith
recorded-append code (x ∷ xs) ys = omega (arith, recorded-append code xs ys)

pub recorded-set :
    (code : ℕ) (xs : List Phase) (i : ℕ) (old phase : Phase)
    → get_elem? xs i ≡ some old
    → recorded code (set xs i phase) + one_if code old ≡ recorded code xs + one_if code phase
unfolding recorded
recorded-set code [] i old phase e = ground (arith, e)
recorded-set code (x ∷ xs) zero old phase e =
    let same : one_if code x ≡ one_if code old = ap (λ o. one_if code (phase_or x o)) e in
    omega (arith, same)
recorded-set code (x ∷ xs) (suc i) old phase e = omega (arith, recorded-set code xs i old phase e)

-- A place of the list after a write to one of them.
pub get_elem?-set-cases :
    (xs : List Phase) (i j : ℕ) (phase other : Phase)
    → get_elem? (set xs i phase) j ≡ some other
    → (other ≡ phase) ⊎ (get_elem? xs j ≡ some other)
get_elem?-set-cases [] i j phase other e = inr e
get_elem?-set-cases (x ∷ xs) zero zero phase other e = inl (sym (ap (phase_or other) e))
get_elem?-set-cases (x ∷ xs) zero (suc j) phase other e = inr e
get_elem?-set-cases (x ∷ xs) (suc i) zero phase other e = inr e
get_elem?-set-cases (x ∷ xs) (suc i) (suc j) phase other e =
    get_elem?-set-cases xs i j phase other e

pub get_elem?-append-cases :
    (xs : List Phase) (j : ℕ) (phase other : Phase)
    → get_elem? (xs ++ phase ∷ []) j ≡ some other
    → (other ≡ phase) ⊎ (get_elem? xs j ≡ some other)
get_elem?-append-cases [] zero phase other e = inl (sym (ap (phase_or other) e))
get_elem?-append-cases [] (suc j) phase other e = inr e
get_elem?-append-cases (x ∷ xs) zero phase other e = inr e
get_elem?-append-cases (x ∷ xs) (suc j) phase other e = get_elem?-append-cases xs j phase other e

pub one_if-same : (code c : ℕ) → code ≡ c → one_if c (returned code) ≡ 1
one_if-same code c e = ground (arith, e)

pub one_if-other : (code c : ℕ) → code ≢ c → one_if c (returned code) ≡ 0
one_if-other code c e = ground (arith, e)
