-- ===== src/Tests/Api.antt =====
-- Runs of internal/api at concrete inputs: the queue is closed, so that a submission is stored and
-- refused.
use go_key_pool_system.Prelude.{◌≡◌, refl, String, true, some, [], ◌⊎◌, inr, arith, ne_of_str_eq}
use go_key_pool_system.Prelude.Int.{pos}
use go_key_pool_system.Prelude.Texts.{split_two}
use go_key_pool_system.Db.Adapter.{Request}
use go_key_pool_system.Db.Requests
use go_key_pool_system.Queue.Bounded.{new_queue, shut, enqueue}
use go_key_pool_system.Api.Http.{HttpIn, write_json, object, code}
use go_key_pool_system.Api.Server.{Server, Submission, NewKey, Library, Call, request_to_response}
use go_key_pool_system.Api.Submit.{
  submit_request, accept, save_request, enqueue_request, build_record, defaulted,
}
use go_key_pool_system.Api.Submit.Answers.{Answered, submit_request-Answered}
use go_key_pool_system.Api.Submit.Replay.{submit_request_once}
use go_key_pool_system.Api.Keys.{add_key, delete_key, reset_key_circuit}
use go_key_pool_system.Api.Keys.Panics.{
  Unanswered, Added, Deleted, WasReset, key_changes-Unanswered,
}
use go_key_pool_system.Api.Router.{Handler, router, public_route}
use go_key_pool_system.Api.Router.Guarded.{IsAuthorized, SameAdmin, router-guards}
use go_key_pool_system.Tests.Keypool.{pool}
use go_key_pool_system.Tests.Db.{tables}

abbrev pub submission : Submission
submission = record {
  idempotency_key = "once";
  source = "";
  priority = pos 0;
  method = "GET";
  url = "http://x";
  headers = [];
  payload = "";
}

abbrev new_key : NewKey
new_key = record {
  name = "second";
  key = "secret";
  weight = pos 0;
  rate_limit_per_minute = pos 0;
  rate_limit_per_day = pos 0;
  concurrent_limit = pos 0;
}

abbrev pub lib : Library
lib = record {
  decode_submission = λ json. inr submission;
  decode_key = λ json. inr new_key;
  decode_weight = λ json. inr (pos 2);
  decode_settings = λ json. inr [];
  marshal_headers = λ headers. "{}";
  to_upper = λ s. s;
  equal_fold = λ s t. true;
  encrypt = λ s. inr s;
  order_keys = λ before keys. keys;
}

abbrev pub call_of : String → Call
call_of id = record { new_id = id; now = 3; up = λ n. true }

abbrev pub post : HttpIn
post = record { method = "POST"; path = "/api/requests"; authorization = ""; body = "{}" }

abbrev remove_a : HttpIn
remove_a = record { method = "DELETE"; path = "/admin/keys/a"; authorization = ""; body = "" }

abbrev server : Server
server = record { db = tables; queue = shut (new_queue (pos 1) true); pool = pool }

submit_request-Answered_example :
    Answered lib (call_of "x") post server (submit_request lib (call_of "x") post server)
submit_request-Answered_example = submit_request-Answered lib (call_of "x") post server

abbrev stored : Server
stored = (submit_request lib (call_of "x") post server).1

refused_by_queue : code (submit_request lib (call_of "x") post server).0 ≡ 503
unfolding submit_request accept save_request enqueue_request enqueue shut new_queue defaulted
    build_record Requests.create Requests.get_by_idempotency_key
refused_by_queue = refl

-- The second submission is answered although the first was never queued.
submit_request_once_example :
    ((submit_request lib (call_of "y") post stored).1 ≡ stored)
    × ((code (submit_request lib (call_of "y") post stored).0 ≡ 400)
        ⊎ (code (submit_request lib (call_of "y") post stored).0 ≡ 405)
        ⊎ ((existing : Request) × (existing.idempotency_key ≡ some "once")
            × ((submit_request lib (call_of "y") post stored).0
                ≡ write_json 200 (object (request_to_response existing)))))
submit_request_once_example =
    submit_request_once lib (call_of "x") (call_of "y") post post server stored submission
      submission [] refl refl refl (ne_of_str_eq "once" "" refl) (inr (inr refused_by_queue)) refl
      refl

key_changes-Unanswered_example :
    Unanswered
      (Added lib (call_of "b") remove_a server)
      server
      (add_key lib (call_of "b") remove_a server)
    × Unanswered
        (Deleted lib (call_of "b") remove_a server)
        server
        (delete_key (call_of "b") remove_a server)
    × Unanswered
        (WasReset lib (call_of "b") remove_a server)
        server
        (reset_key_circuit (call_of "b") remove_a server)
key_changes-Unanswered_example = key_changes-Unanswered lib (call_of "b") remove_a server

stranger : IsAuthorized lib "token" remove_a → ⊥
unfolding split_two
stranger h = ground (arith, h)

router-guards_example :
    SameAdmin server (router lib "token" (call_of "b") remove_a server).1
    × (((handler : Handler) × (public_route lib (call_of "b") remove_a.path ≡ some handler))
        ⊎ (((router lib "token" (call_of "b") remove_a server).1 ≡ server)
            × ((code (router lib "token" (call_of "b") remove_a server).0 ≡ 401)
                ⊎ (code (router lib "token" (call_of "b") remove_a server).0 ≡ 404))))
router-guards_example = router-guards lib "token" (call_of "b") remove_a server stranger
