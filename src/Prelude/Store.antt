-- ===== src/Prelude/Store.antt =====
-- A store of objects: an address to what stands there. Go's `*T` is an address.
use go_key_pool_system.Prelude.{ℕ, ◌≡◌, ◌≢◌, arith, ◌==◌, if◌then◌else◌}

module _ {ℓ} {A : Type ℓ} where
  -- `*p = a`
  abbrev pub update : (ℕ → A) → ℕ → A → ℕ → A
  update f p a q = if p == q then a else f q

  pub update_self : (f : ℕ → A) (p : ℕ) (a : A) → update f p a p ≡ a
  update_self f p a = ground arith

  pub update_ne : (f : ℕ → A) (p q : ℕ) (a : A) → p ≢ q → update f p a q ≡ f q
  update_ne f p q a h = ground arith
