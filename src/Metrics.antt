-- ===== src/Metrics.antt =====
-- The counters of internal/metrics/metrics.go by status code. RecordStatusCode is run by many
-- goroutines at once; a step is one read under the read lock, one section under the write lock, or one
-- atomic Add. A *atomic.Int64 is an address, and counts without its bound.
pub mod Phases
pub mod Invariant
pub mod Counted
use go_key_pool_system.Prelude.{
  ◌≡◌, ℕ, ◌+◌, Option, none, some, List, [], ◌∷◌, ◌++◌, get_elem?, set, ◌==◌, if◌then◌else◌,
}
use go_key_pool_system.Prelude.Store.{update}

-- Where a call of RecordStatusCode stands, for its code: before the read lock, with the counter that
-- was found and is to be added to, before the write lock, or returned.
pub data Phase : Type 0 where
  started : ℕ → Phase
  found : ℕ → ℕ → Phase
  missing : ℕ → Phase
  returned : ℕ → Phase

pub record Metrics : Type 0 where
  pub status_codes : ℕ → Option ℕ
  pub counters : ℕ → ℕ
  pub fresh : ℕ
  pub calls : List Phase

unfoldable pub new : Metrics
new = record { status_codes = λ code. none; counters = λ p. 0; fresh = 0; calls = [] }

abbrev pub at : Metrics → ℕ → Phase → Metrics
at m i phase = record m { calls = set m.calls i phase }

-- The lookup under the read lock.
unfoldable pub look_up : Metrics → ℕ → ℕ → Metrics
look_up m i code = elim (m.status_codes code) [
  | none ↦ at m i (missing code)
  | some p ↦ at m i (found code p)
]

-- counter.Add(1)
unfoldable pub add : Metrics → ℕ → ℕ → ℕ → Metrics
add m i code p =
    at (record m { counters = update m.counters p (m.counters p + 1) }) i (returned code)

-- The section under the write lock: it looks again, and makes a counter where there is none.
abbrev pub created : Metrics → ℕ → ℕ → Metrics
created m i code = record {
  status_codes = λ c. if code == c then some m.fresh else m.status_codes c;
  counters = update m.counters m.fresh 1;
  fresh = m.fresh + 1;
  calls = set m.calls i (returned code);
}

unfoldable pub create : Metrics → ℕ → ℕ → Metrics
create m i code = elim (m.status_codes code) [
  | some p ↦ at m i (found code p)
  | none ↦ created m i code
]

-- One step of the calls, the beginning of one included.
pub data Step (m : Metrics) : Metrics → Type 0 where
  calls_it : (code : ℕ) → Step m (record m { calls = m.calls ++ started code ∷ [] })
  reads : (i code : ℕ) → get_elem? m.calls i ≡ some (started code) → Step m (look_up m i code)
  adds : (i code p : ℕ) → get_elem? m.calls i ≡ some (found code p) → Step m (add m i code p)
  writes : (i code : ℕ) → get_elem? m.calls i ≡ some (missing code) → Step m (create m i code)

pub data Reach : Metrics → Type 0 where
  here : Reach new
  next : {m after : Metrics} → Reach m → Step m after → Reach after

-- What Handler prints for a code: 0 where it has no line.
unfoldable pub count_of : Metrics → ℕ → ℕ
count_of m code = elim (m.status_codes code) [ none ↦ 0 | some p ↦ m.counters p ]
