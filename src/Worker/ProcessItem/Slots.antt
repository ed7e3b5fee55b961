-- ===== src/Worker/ProcessItem/Slots.antt =====
-- processItem of internal/worker/worker.go gives back the slot that it takes.
use go_key_pool_system.Prelude.{
  ℕ, ◌-◌, ◌≡◌, refl, inl, inr, String, ◌⊎◌, Option, none, some, arith, if◌then◌else◌, ◌==◌,
  Option-cases, ◌∙◌,
}
use go_key_pool_system.Db.Adapter.{Request}
use go_key_pool_system.Keypool.Manager.{Manager, get_key, release_key}
use go_key_pool_system.Keypool.Manager.GetKey.{slots, get_key-slots}
use go_key_pool_system.Keypool.Manager.Marking.{mark_failed-slots, mark_success-slots}
use go_key_pool_system.Keypool.Manager.Holding.{release_key-slots}
use go_key_pool_system.Worker.ProcessItem.{
  Worker, HttpResponse, handle_result, with_decrypted, with_key, process_item,
}

module _ {F H : Type 0} (w : Worker F H) where
  handle_result-slots :
      (now : ℕ) (req : Request) (k : ℕ) (r : String ⊎ HttpResponse) (m : Manager) (j : ℕ)
      → slots (handle_result w now req k r m).0 j ≡ slots m j
  unfolding handle_result
  handle_result-slots now req k (inl error) m j = mark_failed-slots now k m j
  handle_result-slots now req k (inr resp) m j =
      ground (arith, mark_failed-slots now k m j, mark_success-slots k m j)

  with_decrypted-slots :
      (now : ℕ) (req : Request) (k : ℕ) (m : Manager) (d : String ⊎ String) (j : ℕ)
      → slots (with_decrypted w now req k m d).manager j ≡ slots m j - (if k == j then 1 else 0)
  unfolding with_decrypted
  with_decrypted-slots now req k m (inl error) j = release_key-slots k m j
  with_decrypted-slots now req k m (inr api_key) j =
      handle_result-slots now req k _ (release_key k m) j ∙ release_key-slots k m j

  with_key-slots :
      (now : ℕ) (req : Request) (k : ℕ) (m : Manager) (j : ℕ)
      → slots (with_key w now req k m).manager j ≡ slots m j - (if k == j then 1 else 0)
  unfolding with_key
  with_key-slots now req k m j = with_decrypted-slots now req k m _ j

  -- Whatever the database, the key and the API answer, no key's count of slots is changed when the
  -- item has been processed.
  pub process_item-slots :
      (now later : ℕ) (loaded : Option (Option Request)) (m : Manager) (j : ℕ)
      → slots (process_item w now later loaded m).manager j ≡ slots m j
  unfolding process_item
  process_item-slots now later none m j = refl
  process_item-slots now later (some none) m j = refl
  process_item-slots now later (some (some req)) m j = elim (Option-cases (get_key now m).0) [
    | inl e ↦ rw e (ground (arith, get_key-slots now m j))
    | inr (k, e) ↦
        rw e (ground (arith, get_key-slots now m j, with_key-slots later req k (get_key now m).1 j))
  ]
