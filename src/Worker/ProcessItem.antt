-- ===== src/Worker/ProcessItem.antt =====
-- processItem of internal/worker/worker.go and what it calls. What lies outside is given: the row
-- that GetRequest reads, the decryption of a key, the parser of the headers, and the HTTP client of
-- the interface HTTPClient. An error is its text. The item goes back to the queue by a goroutine
-- that waits for a delay; the model returns the attempt that the delay is computed from.
pub mod Slots
pub mod Settled
pub mod Success
use go_key_pool_system.Prelude.{
  ℕ, ◌+◌, ◌≡◌, ◌⊎◌, inl, inr, String, Bool, true, false, ◌&&◌, ◌||◌, Option, none, some, List, [],
  ◌∷◌, ◌++◌, ◌==◌, if◌then◌else◌,
}
use go_key_pool_system.Prelude.Int.{ℤ, pos, leb_ℤ, ltb_ℤ, eqb_ℤ}
use go_key_pool_system.Db.Adapter.{
  RequestStatus, pending, processing, success, failed, queued, Request, Write,
  update_request_status, update_request_result,
}
use go_key_pool_system.Config.HotReload.{HotReloadConfig}
use go_key_pool_system.Keypool.Manager.{Manager, get_key, release_key}
use go_key_pool_system.Keypool.Marks.{mark_success, mark_failed}
use Prim.Native.String.{◌++◌ as str_append}
use go_key_pool_system.Worker.Retry.{should_retry}

pub record HttpRequest (H : Type 0) : Type 0 where
  pub method : String
  pub url : String
  pub headers : Option H
  pub body : Option String
  pub api_key : String

pub record HttpResponse : Type 0 where
  pub status_code : ℤ
  pub body : String

-- The manager after the call, the writes and the HTTP calls in order, and the retry, if any.
pub record Processed (H : Type 0) : Type 0 where
  pub manager : Manager
  pub writes : List Write
  pub calls : List (HttpRequest H)
  pub requeue : Option ℕ

-- req.Status == success || req.Status == failed
unfoldable pub is_settled : RequestStatus → Bool
is_settled success = true
is_settled failed = true
is_settled _ = false

-- resp.StatusCode >= 200 && resp.StatusCode < 300
unfoldable pub is_success : ℤ → Bool
is_success code = leb_ℤ (pos 200) code && ltb_ℤ code (pos 300)

-- resp.StatusCode == 429 || resp.StatusCode >= 500
unfoldable pub is_retryable : ℤ → Bool
is_retryable code = eqb_ℤ code (pos 429) || leb_ℤ (pos 500) code

-- The worker, with the code outside that it calls.
pub record Worker (F H : Type 0) : Type 0 where
  pub client : HttpRequest H → String ⊎ HttpResponse
  pub hot_cfg : HotReloadConfig F
  pub enc_key : String
  pub decrypt : String → String → String ⊎ String
  pub parse_json_map : String → H

module _ {F H : Type 0} (w : Worker F H) where
  -- What is left alone where nothing happens.
  abbrev pub skip : Manager → Processed H
  skip m = record { manager = m; writes = []; calls = []; requeue = none }

  -- The writes of handleFailure, and the retry.
  unfoldable pub handle_failure : ℕ → Request → String → List Write × Option ℕ
  handle_failure now req error =
      if should_retry (pos (req.attempts + 1)) w.hot_cfg
      then ([], some req.attempts)
      else (update_request_result req.id failed (pos 0) "" error now ∷ [], none)

  abbrev build_request : Request → String → HttpRequest H
  build_request req api_key = record {
    method = req.method;
    url = req.destination_url;
    headers = elim req.headers [ none ↦ none | some text ↦ some (w.parse_json_map text) ];
    body = req.payload;
    api_key = api_key;
  }

  -- "6. Handle result", after the key was released.
  unfoldable pub handle_result :
      ℕ → Request → ℕ → String ⊎ HttpResponse → Manager → Manager × List Write × Option ℕ
  handle_result now req k (inl error) m =
      let (m', writes) = mark_failed now k m in
      let (last, retry) = handle_failure now req error in (m', writes ++ last, retry)
  handle_result now req k (inr resp) m =
      let (ok, used) = mark_success k m in
      let (bad, health) = mark_failed now k m in
      let (last, retry) = handle_failure now req resp.body in
      let result = λ (status : RequestStatus).
        update_request_result req.id status resp.status_code resp.body "" now in
      if is_success resp.status_code
      then (ok, used ++ result success ∷ [], none)
      else if is_retryable resp.status_code
      then (bad, health ++ last, retry)
      else (ok, used ++ result failed ∷ [], none)

  -- From step 5 on, with the key `k` and what its decryption gave.
  unfoldable pub with_decrypted : ℕ → Request → ℕ → Manager → String ⊎ String → Processed H
  with_decrypted now req k m (inl error) =
      let (last, retry) = handle_failure now req (str_append "decryption failed: " error) in
      record { manager = release_key k m; writes = last; calls = []; requeue = retry }
  with_decrypted now req k m (inr api_key) =
      let call = build_request req api_key in
      let (m', writes, retry) = handle_result now req k (w.client call) (release_key k m) in
      record { manager = m'; writes = writes; calls = call ∷ []; requeue = retry }

  -- From step 3 on, with the key `k`.
  unfoldable pub with_key : ℕ → Request → ℕ → Manager → Processed H
  with_key now req k m =
      let key = m.store k in
      let start = update_request_status req.id processing key.id (req.attempts + 1) in
      let done = with_decrypted now req k m (w.decrypt key.key_encrypted w.enc_key) in
      record done { writes = start ∷ done.writes }

  -- The key is selected at `now`, and the result comes `later`. The option is what GetRequest returns:
  -- nothing on an error, and some nil where there is no row.
  unfoldable pub process_item : ℕ → ℕ → Option (Option Request) → Manager → Processed H
  process_item now later none m = skip m
  process_item now later (some none) m = skip m
  process_item now later (some (some req)) m =
      let (selected, m') = get_key now m in
      let attempt : Processed H = elim selected [
        | none ↦ record (skip m') { requeue = some 0 }
        | some k ↦ with_key later req k m'
      ] in
      if is_settled req.status then skip m else attempt
