-- ===== src/Examples/Twins.antt =====
-- Both clients against a server whose first connection is refused.
use ucloud_sandboxes_sdk.Prelude.{ℕ, zero, suc, none, some, [], pos, refl, inl}
use ucloud_sandboxes_sdk.Transport.Decode.{
  is_success, url_error, econnrefused, sync_connect_failure,
}
use ucloud_sandboxes_sdk.Transport.Loop.{Exchange, answered, os_error}
use ucloud_sandboxes_sdk.Transport.Requests.{request_json_response}
use ucloud_sandboxes_sdk.Transport.Async.{
  AsyncExchange, AsyncOutcome, connector, async_request_json_response,
}
use ucloud_sandboxes_sdk.Transport.Twins.{Same, SameExchange, SameCalls, async_request-sync_request}
use ucloud_sandboxes_sdk.Examples.Values.{python, exec_path}

abbrev server : ℕ → Exchange
server zero = record {
  outcome = os_error (url_error econnrefused);
  took = 5;
  jitter = 0;
  overslept = 3;
}
server (suc _) = record { outcome = answered 200 [] "{}"; took = 7; jitter = 0; overslept = 0 }

abbrev async_server : ℕ → AsyncExchange
async_server zero = record { outcome = connector; took = 5; jitter = 0; overslept = 3 }
async_server (suc _) = record {
  outcome = AsyncOutcome.answered 200 [] (some "{}");
  took = 7;
  jitter = 0;
  overslept = 0;
}

same_servers : (k : ℕ) → SameExchange (async_server k) (server k)
unfolding is_success sync_connect_failure
same_servers zero = record {
  outcome = inl (Same.no_connection (url_error econnrefused) refl);
  took = refl;
  jitter = refl;
  overslept = refl;
}
same_servers (suc k) = record {
  outcome = inl (Same.same_answer 200 [] "{}" refl);
  took = refl;
  jitter = refl;
  overslept = refl;
}

async_request-sync_request_example :
    SameCalls async_server server
      (async_request_json_response python async_server 5 100 "POST" exec_path none none
        (pos 2000000))
      (request_json_response python server 5 100 "POST" exec_path none none (pos 2000000))
async_request-sync_request_example =
    async_request-sync_request python async_server server 5 100 "POST" exec_path none none
      (pos 2000000) same_servers
