-- ===== src/Tests/Journey.antt =====
-- A request through the program at concrete inputs: the API that it calls answers 503 three times.
use go_key_pool_system.Prelude.{◌≡◌, ◌≢◌, refl, ne_of_str_eq, true, [], ◌∷◌, List, arith}
use go_key_pool_system.Prelude.Int.{pos}
use go_key_pool_system.Prelude.Texts.{trim_prefix, before_first}
use go_key_pool_system.Db.Adapter.{Request}
use go_key_pool_system.Db.Requests
use go_key_pool_system.Queue.Bounded.{new_queue, enqueue, admit}
use go_key_pool_system.Worker.ProcessItem.{is_settled}
use go_key_pool_system.Worker.Lifecycle.{Round, serve_rounds}
use go_key_pool_system.Api.Http.{HttpIn, write_json, write_error, object, code}
use go_key_pool_system.Api.Server.{Server, request_to_response}
use go_key_pool_system.Api.Submit.{
  submit_request, get_request_status, accept, save_request, enqueue_request, defaulted,
  build_record, extract_path_param,
}
use go_key_pool_system.Api.Submit.Race.{save_request_race}
use go_key_pool_system.Program.Journey.{accepted_request_settles}
use go_key_pool_system.Tests.Api.{lib, call_of, post, submission}
use go_key_pool_system.Tests.Db.{tables, gives}
use go_key_pool_system.Tests.Keypool.{pool}
use go_key_pool_system.Tests.Worker.{worker}

abbrev server : Server
server = record { db = tables; queue = new_queue (pos 1) true; pool = pool }

abbrev poll : HttpIn
poll = record { method = "GET"; path = "/api/requests/x"; authorization = ""; body = "" }

is_accepted : code (submit_request lib (call_of "x") post server).0 ≡ 202
unfolding submit_request accept save_request enqueue_request enqueue admit new_queue defaulted
    build_record Requests.create Requests.get_by_idempotency_key
is_accepted = refl

poll_names : extract_path_param "/api/requests/x" "/api/requests/" ≡ "x"
unfolding extract_path_param trim_prefix before_first
poll_names = refl

abbrev rounds : List Round
rounds = (7, 9, pool) ∷ (7, 9, pool) ∷ (7, 9, pool) ∷ []

accepted_request_settles_example :
    let submitted = (submit_request lib (call_of "x") post server).1 in
    let later = record submitted { db = serve_rounds worker "x" rounds submitted.db } in
    (req : Request) × (is_settled req.status ≡ true)
    × (get_request_status (call_of "y") poll later
        ≡ (write_json 200 (object (request_to_response req)), later))
accepted_request_settles_example =
    accepted_request_settles lib (call_of "x") post server worker rounds (call_of "y") poll
      is_accepted (gives, (gives, (gives, tt))) (omega arith) (omega arith) refl poll_names
      (λ e. cc e) refl

abbrev second : Server
second =
    (save_request (call_of "x") (build_record lib (call_of "x") (defaulted submission)) server).1

is_saved :
    code
      (save_request (call_of "x") (build_record lib (call_of "x") (defaulted submission)) server).0
    ≢ 500
unfolding save_request enqueue_request enqueue admit new_queue defaulted build_record
    Requests.create
is_saved e = absurd (omega (arith, e))

save_request_race_example :
    save_request (call_of "y") (build_record lib (call_of "y") (defaulted submission)) second
    ≡ (write_error 500 "failed to save request", second)
save_request_race_example =
    save_request_race lib (call_of "x") (call_of "y") server second submission submission []
      (ne_of_str_eq "once" "" refl) refl is_saved refl
