-- ===== src/Examples/Workers.antt =====
-- A worker that polls once and handles one request.
use ucloud_sandboxes_sdk.Prelude.{
  ℕ, zero, suc, ◌+◌, ◌<◌, Bool, none, some, List, [], ◌∷◌, ◌≡◌, refl,
}
use ucloud_sandboxes_sdk.Json.{Fields, null, end}
use ucloud_sandboxes_sdk.Errors.{
  ApiError, plain, Exception, api_error, value_error, unreachable, os_failure, Result, ok, err,
  retryable,
}
use ucloud_sandboxes_sdk.Relay.Request.{Request}
use ucloud_sandboxes_sdk.Relay.Poll.{relay_error_is_retryable}
use ucloud_sandboxes_sdk.Retry.Delay.{retry_after, header}
use ucloud_sandboxes_sdk.Relay.Commit.{
  repeat_call, Attempts, commit_pause, commit_response_bytes, Upstream, Committed, Forwarded,
}
use ucloud_sandboxes_sdk.Relay.Committed.{commit_response_bytes-Attempts}
use ucloud_sandboxes_sdk.Worker.Handle.{Reply, Call}
use ucloud_sandboxes_sdk.Worker.Loop.{World, looping, leaving, submit, Step, Reachable}
use ucloud_sandboxes_sdk.Worker.Budget.{IsWorker, reachable-IsWorker}
use ucloud_sandboxes_sdk.Worker.Drain.{Run, left_to_do, Goes, leaving_ends}
use ucloud_sandboxes_sdk.Examples.Values.{python, after_two_seconds}
use ucloud_sandboxes_sdk.Examples.Relays.{leased}

-- The handler fails, and its failure is reported.
abbrev failing_handler : Request → Result Exception Reply
failing_handler r = err (value_error unreachable)

abbrev client : Call → Result Exception (Unit {0})
client call = ok tt

-- One request runs, and its unit is out.
abbrev working : World
working = record {
  phase = looping;
  poll_errors = 0;
  futures = record { request = leased; done = none } ∷ [];
  held = 1;
  to_release = 0;
  submitted = leased ∷ [];
}

works : Reachable python 4 8 working
unfolding submit
works =
    Reachable.next
      (Reachable.next (Reachable.next Reachable.start (Step.collects _ refl refl refl))
        (Step.acquires _ refl))
      (Step.polls _ 1 (leased ∷ []) (record { request = leased; done = none } ∷ []) 0 refl refl)

reachable-IsWorker_example : IsWorker python 4 8 working
reachable-IsWorker_example = reachable-IsWorker python 4 8 works

-- The first request of the commit meets a busy relay.
abbrev busy_relay : ApiError
busy_relay = record (plain os_failure null) { status_code = some 503; headers = after_two_seconds }

abbrev forwarded : Committed
forwarded = record { body = 104 ∷ []; status = 201; headers = ("X-A", "b") ∷ [] }

abbrev respond : Committed → ℕ → Result Exception Fields
respond response zero = err (api_error busy_relay)
respond response (suc _) = ok end

commits : commit_response_bytes python respond forwarded 60 1000000 ≡ (ok end, 2000000 ∷ [])
unfolding commit_response_bytes repeat_call relay_error_is_retryable retryable retry_after header
commits = refl

commit_response_bytes-Attempts_example :
    Attempts (respond forwarded) (commit_pause python 1000000) 60 0 end (2000000 ∷ []) × (1 < 60)
commit_response_bytes-Attempts_example =
    commit_response_bytes-Attempts python respond forwarded 60 1000000 end (2000000 ∷ []) commits

abbrev error_body : Bool → List ℕ
error_body timed_out = 101 ∷ []

abbrev upstream : Forwarded → Upstream
upstream r = Upstream.responded 201 (("Connection", "close") ∷ ("X-A", "b") ∷ []) (some (104 ∷ []))

-- The worker is told to stop while its request runs.
stopped : Reachable python 4 8 (record working { phase = leaving })
stopped = Reachable.next works (Step.stops _ refl)

abbrev leaving_world : World
leaving_world = record working { phase = leaving }

-- The request ends.
abbrev ended_world : World
ended_world = record leaving_world {
  futures = record { request = leased; done = some (ok tt) } ∷ [];
  to_release = 1;
}

runs : Run python 4 8 1 leaving_world ended_world
runs = Run.then_step (Step.finishes leaving_world [] [] leased (ok tt) refl) Run.here

leaving_ends_example :
    (1 + left_to_do python 4 8 ended_world ≡ left_to_do python 4 8 leaving_world)
    × Goes python 4 8 ended_world
leaving_ends_example = leaving_ends python 4 8 stopped refl runs
