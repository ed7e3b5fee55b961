-- ===== src/Worker/ProcessItem/Success.antt =====
-- When processItem of internal/worker/worker.go reports success.
use go_key_pool_system.Prelude.{ℕ, ◌+◌, ◌≡◌, inr, true, List, [], ◌∷◌}
use go_key_pool_system.Db.Adapter.{
  RequestStatus, success, Write, update_request_result, update_request_status, create_key_event,
  update_api_key_last_used, update_api_key_health,
}
use go_key_pool_system.Keypool.Manager.{Manager}
use go_key_pool_system.Worker.ProcessItem.{Worker, HttpRequest, HttpResponse, is_success}

abbrev pub one_if_success : RequestStatus → ℕ
one_if_success success = 1
one_if_success _ = 0

-- How many of the writes report a request as a success.
unfoldable pub successes : List Write → ℕ
successes [] = 0
successes (update_request_result id status code body error now ∷ ws) =
    one_if_success status + successes ws
successes (create_key_event e ∷ ws) = successes ws
successes (update_api_key_last_used id ∷ ws) = successes ws
successes (update_api_key_health id ok n state ∷ ws) = successes ws
successes (update_request_status id status key n ∷ ws) = successes ws

-- One call was sent, and its answer was of the 200s.
pub record IsAnswered {F H : Type 0} (w : Worker F H) (calls : List (HttpRequest H)) : Type 0 where
  pub call : HttpRequest H
  pub sent : calls ≡ call ∷ []
  pub resp : HttpResponse
  pub answer : w.client call ≡ inr resp
  pub good : is_success resp.status_code ≡ true
