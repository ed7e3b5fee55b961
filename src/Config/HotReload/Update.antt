-- ===== src/Config/HotReload/Update.antt =====
-- Update of internal/config/reload.go: what it accepts, and what it reports.
use go_key_pool_system.Prelude.{
  String, true, ◌≡◌, refl, inl, inr, Option, none, some, List, [], ◌∷◌, ◌++◌, arith, Option-cases,
}
use go_key_pool_system.Prelude.Int.{ℤ, pos, ◌≤ℤ◌}
use go_key_pool_system.Config.Environment.{Environment}
use go_key_pool_system.Config.Validators.{valid_strategies}
use go_key_pool_system.Config.HotReload.{
  HotReloadConfig, set_int, update_int, set_float, update_float, set_strategy, update_strategy,
  update,
}

-- The numbers are at least 1, and the strategy is known.
pub record IsUsable {F : Type 0} (h : HotReloadConfig F) : Type 0 where
  pub workers : pos 1 ≤ℤ h.worker_count
  pub queue : pos 1 ≤ℤ h.queue_max_size
  pub strategy : valid_strategies h.strategy ≡ true
  pub threshold : pos 1 ≤ℤ h.circuit_breaker_threshold
  pub duration : pos 1 ≤ℤ h.circuit_breaker_open_duration
  pub attempts : pos 1 ≤ℤ h.retry_max_attempts
  pub base : pos 1 ≤ℤ h.retry_base_delay_ms
  pub max : pos 1 ≤ℤ h.retry_max_delay_ms

append_empty : {A : Type 0} (xs ys : List A) → xs ++ ys ≡ [] → (xs ≡ []) × (ys ≡ [])
append_empty [] ys h = (refl, h)
append_empty (x ∷ xs) ys h = absurd cc

module _ {F : Type 0} (env : Environment F) (db : String → Option String) where
  set_int-positive :
      (key : String) (n : ℤ) (o : Option ℤ) → pos 1 ≤ℤ n → pos 1 ≤ℤ (set_int env key n o).1
  unfolding set_int
  set_int-positive key n none h = h
  set_int-positive key n (some new) h = ground (arith, h)

  update_int-positive : (key : String) (n : ℤ) → pos 1 ≤ℤ n → pos 1 ≤ℤ (update_int env db key n).1
  unfolding update_int
  update_int-positive key n h = elim (Option-cases (db key)) [
    | inl e ↦ rw (e, update_int) h
    | inr (val, e) ↦ rw (e, update_int) (set_int-positive key n (env.atoi val) h)
  ]

  set_strategy-valid :
      (s : String) (o : Option String)
      → valid_strategies s ≡ true
      → valid_strategies (set_strategy env s o).1 ≡ true
  unfolding set_strategy
  set_strategy-valid s none h = h
  set_strategy-valid s (some val) h = ground (arith, h)

  -- Where every number is at least 1 and the strategy is known, an update keeps it so, whatever the
  -- table says.
  pub update-IsUsable : (h : HotReloadConfig F) → IsUsable h → IsUsable (update env db h).1
  unfolding update update_strategy
  update-IsUsable h u = record {
    workers = update_int-positive _ _ u.workers;
    queue = update_int-positive _ _ u.queue;
    strategy = set_strategy-valid _ (db "strategy") u.strategy;
    threshold = update_int-positive _ _ u.threshold;
    duration = update_int-positive _ _ u.duration;
    attempts = update_int-positive _ _ u.attempts;
    base = update_int-positive _ _ u.base;
    max = update_int-positive _ _ u.max;
  }

  set_int-quiet :
      (key : String) (n : ℤ) (o : Option ℤ)
      → (set_int env key n o).0 ≡ []
      → (set_int env key n o).1 ≡ n
  unfolding set_int
  set_int-quiet key n none h = refl
  set_int-quiet key n (some new) h = ground (arith, h)

  set_float-quiet :
      (key : String) (x : F) (o : Option F)
      → (set_float env key x o).0 ≡ []
      → (set_float env key x o).1 ≡ x
  unfolding set_float
  set_float-quiet key x none h = refl
  set_float-quiet key x (some new) h = ground (arith, h)

  set_strategy-quiet :
      (s : String) (o : Option String)
      → (set_strategy env s o).0 ≡ []
      → (set_strategy env s o).1 ≡ s
  unfolding set_strategy
  set_strategy-quiet s none h = refl
  set_strategy-quiet s (some val) h = ground (arith, h)

  update_int-quiet :
      (key : String) (n : ℤ) → (update_int env db key n).0 ≡ [] → (update_int env db key n).1 ≡ n
  unfolding update_int
  update_int-quiet key n h = elim (Option-cases (db key)) [
    | inl e ↦ rw (e, update_int) refl
    | inr (val, e) ↦
        rw (e, update_int) (set_int-quiet key n (env.atoi val) (rw (e, update_int) at h))
  ]

  update_float-quiet :
      (key : String) (x : F)
      → (update_float env db key x).0 ≡ []
      → (update_float env db key x).1 ≡ x
  unfolding update_float
  update_float-quiet key x h = elim (Option-cases (db key)) [
    | inl e ↦ rw (e, update_float) refl
    | inr (val, e) ↦
        rw (e, update_float)
          (set_float-quiet key x (env.parse_float val) (rw (e, update_float) at h))
  ]

  -- An update that reports no change has made none.
  pub update-quiet : (h : HotReloadConfig F) → (update env db h).0 ≡ [] → (update env db h).1 ≡ h
  unfolding update update_strategy
  update-quiet h unchanged =
      let (r9, c10) = append_empty _ _ unchanged in
      let (r8, c9) = append_empty _ _ r9 in
      let (r7, c8) = append_empty _ _ r8 in
      let (r6, c7) = append_empty _ _ r7 in
      let (r5, c6) = append_empty _ _ r6 in
      let (r4, c5) = append_empty _ _ r5 in
      let (r3, c4) = append_empty _ _ r4 in
      let (r2, c3) = append_empty _ _ r3 in
      let (r1, c2) = append_empty _ _ r2 in
      let e1 = update_int-quiet "worker_count" h.worker_count r1 in
      let e2 = update_int-quiet "queue_max_size" h.queue_max_size c2 in
      let e3 = update_int-quiet "circuit_breaker_threshold" h.circuit_breaker_threshold c3 in
      let e4 =
        update_int-quiet "circuit_breaker_open_duration_seconds" h.circuit_breaker_open_duration
          c4 in
      let e5 = update_int-quiet "retry_max_attempts" h.retry_max_attempts c5 in
      let e6 = update_int-quiet "retry_base_delay_ms" h.retry_base_delay_ms c6 in
      let e7 = update_int-quiet "retry_max_delay_ms" h.retry_max_delay_ms c7 in
      let e8 = set_strategy-quiet h.strategy (db "strategy") c8 in
      let e9 = update_float-quiet "load_shed_level1" h.load_shed_level1_threshold c9 in
      let e10 = update_float-quiet "load_shed_level2" h.load_shed_level2_threshold c10 in
      λ i. record {
        worker_count = e1 i;
        queue_max_size = e2 i;
        circuit_breaker_threshold = e3 i;
        circuit_breaker_open_duration = e4 i;
        retry_max_attempts = e5 i;
        retry_base_delay_ms = e6 i;
        retry_max_delay_ms = e7 i;
        strategy = e8 i;
        load_shed_level1_threshold = e9 i;
        load_shed_level2_threshold = e10 i;
      }
