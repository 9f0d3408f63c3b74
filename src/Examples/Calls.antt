-- ===== src/Examples/Calls.antt =====
-- A call against a server that is busy once and then answers.
use ucloud_sandboxes_sdk.Prelude.{
  ℕ, zero, suc, ◌-◌, ◌≤◌, ◌<◌, max, List, [], pos, All, ◌≡◌, ◌≢◌, refl, arith,
}
use ucloud_sandboxes_sdk.Json.{end}
use ucloud_sandboxes_sdk.Clock.{
  deadline, remaining, required_remaining, request_timeout, can_sleep, millisecond,
}
use ucloud_sandboxes_sdk.Retry.Paths.{is_method, is_path, is_read_method, path_begins}
use ucloud_sandboxes_sdk.Retry.Delay.{connection_retry_delay}
use ucloud_sandboxes_sdk.Retry.Policy.{stable_create, retry_attempts}
use ucloud_sandboxes_sdk.Retry.Fences.{IsUnsafe}
use ucloud_sandboxes_sdk.Transport.Decode.{
  decode_node_json, is_success, url_error, econnrefused, sync_connect_failure,
}
use ucloud_sandboxes_sdk.Transport.Loop.{
  Exchange, answered, os_error, Ended, returned, out_of_fuel, Sent, Call, after, after_os_error,
  has_attempt, resume, round, loop, run,
}
use ucloud_sandboxes_sdk.Transport.Requests.{Answer, json_call}
use ucloud_sandboxes_sdk.Transport.Termination.{run_ends, run-on_time}
use ucloud_sandboxes_sdk.Transport.Replay.{MayRepeat, AllButLast, run-MayRepeat}
use ucloud_sandboxes_sdk.Examples.Values.{python, exec_path}

-- The first connection is refused, the next request is answered.
abbrev server : ℕ → Exchange
server zero = record {
  outcome = os_error (url_error econnrefused);
  took = 5;
  jitter = 0;
  overslept = 3;
}
server (suc _) = record { outcome = answered 200 [] "{}"; took = 7; jitter = 0; overslept = 0 }

server_takes_time : (k : ℕ) → 0 < (server k).took
server_takes_time zero = omega arith
server_takes_time (suc k) = omega arith

unfoldable start_call : Call Answer
unfolding json_call
start_call = json_call python "POST" exec_path (pos 2000000)

abbrev start : Ended Answer × List Sent
start = run python start_call server 2000001 100

run_ends_example : start.0 ≢ out_of_fuel
unfolding start_call
run_ends_example = run_ends python start_call server 2000001 100 server_takes_time (omega arith)

run-on_time_example :
    All (λ s. (s.at < 2000100) × (s.timeout ≤ max millisecond (2000100 - s.at))) start.1
unfolding start_call
run-on_time_example = run-on_time python start_call server 2000001 100

start-IsUnsafe : IsUnsafe start_call.method start_call.path
unfolding start_call is_read_method is_method is_path stable_create
start-IsUnsafe = record { no_read = refl; no_create = refl }

run-MayRepeat_example :
    AllButLast (λ s. MayRepeat python start_call.method start_call.path s.exchange.outcome) start.1
run-MayRepeat_example = run-MayRepeat python start_call start-IsUnsafe server 2000001 100

start_returned : (run python start_call server 5 100).0 ≡ returned (end, [])
unfolding start_call run deadline loop round resume after after_os_error has_attempt retry_attempts
    required_remaining remaining request_timeout can_sleep connection_retry_delay is_method is_path
    path_begins decode_node_json is_success sync_connect_failure
start_returned = refl
