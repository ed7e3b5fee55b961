-- ===== src/Tests/Worker.antt =====
-- A run of internal/worker at concrete inputs: the API answers 503.
use go_key_pool_system.Prelude.{
  ℕ, ◌+◌, ◌≡◌, ◌⊎◌, refl, inr, String, none, some, [], ◌∷◌, List, ◌≢◌, false,
}
use go_key_pool_system.Prelude.Int.{pos}
use go_key_pool_system.Db.Adapter.{Request, pending}
use go_key_pool_system.Keypool.RoundRobin
use go_key_pool_system.Keypool.Manager.GetKey.{slots}
use go_key_pool_system.Worker.ProcessItem.{
  Worker, HttpRequest, HttpResponse, is_settled, is_success, is_retryable, handle_failure,
  handle_result, with_decrypted, with_key, process_item,
}
use go_key_pool_system.Worker.ProcessItem.Slots.{process_item-slots}
use go_key_pool_system.Worker.ProcessItem.Settled.{results, retries, process_item_once}
use go_key_pool_system.Worker.HttpClient.{NetHttp, build, has_body, get_header}
use go_key_pool_system.Worker.HttpClient.Headers.{last_value, build-headers}
use go_key_pool_system.Tests.Keypool.{pool, pool_gives, hot}

abbrev unavailable : HttpResponse
unavailable = record { status_code = pos 503; body = "busy" }

abbrev pub worker : Worker ℕ String
worker = record {
  client = λ r. inr unavailable;
  hot_cfg = hot;
  enc_key = "";
  decrypt = λ text key. inr text;
  parse_json_map = λ text. text;
}

abbrev pub request : Request
request = record {
  id = "r";
  idempotency_key = none;
  source = "manual";
  priority = pos 2;
  method = "GET";
  destination_url = "";
  headers = none;
  payload = none;
  status = pending;
  assigned_key_id = none;
  attempts = 0;
  last_error = none;
  response_status = none;
  response_body = none;
  created_at = 0;
  updated_at = 0;
  completed_at = none;
}

process_item-slots_example :
    slots (process_item worker 7 9 (some (some request)) pool).manager 0 ≡ slots pool 0
process_item-slots_example = process_item-slots worker 7 9 (some (some request)) pool 0

process_item_once_example :
    results request.id (process_item worker 7 9 (some (some request)) pool).writes
      + retries (process_item worker 7 9 (some (some request)) pool).requeue
    ≡ 1
unfolding is_settled
process_item_once_example = process_item_once worker 7 9 request pool

retried : (process_item worker 7 9 (some (some request)) pool).requeue ≡ some 0
unfolding process_item with_key with_decrypted handle_result handle_failure is_settled is_success
    is_retryable
retried = rw pool_gives refl

abbrev served : HttpResponse
served = record { status_code = pos 201; body = "" }

abbrev good_worker : Worker ℕ String
good_worker = record worker { client = λ r. inr served }

abbrev net : NetHttp
net = record {
  canonical = λ name. name;
  refuses = λ method url. none;
  send = λ r. inr (pos 201, inr "");
}

abbrev outgoing : HttpRequest (List (String × String))
outgoing = record {
  method = "POST";
  url = "http://x";
  headers = some (("Accept", "text/plain") ∷ []);
  body = some "{}";
  api_key = "secret";
}

build-headers_example :
    ((build net outgoing).header "Authorization"
      ≡ last_value net "Authorization" (("Accept", "text/plain") ∷ []) (some "Bearer secret"))
    × ((has_body net (some "{}") ≡ false)
        ⊎ (get_header net "Content-Type" (build net outgoing).header ≢ ""))
build-headers_example = build-headers net outgoing refl refl
