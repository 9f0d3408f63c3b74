-- ===== src/Examples/Waits.antt =====
-- Waits for a job and for an image build, and compact statuses.
use ucloud_sandboxes_sdk.Prelude.{
  ℕ, zero, suc, ◌≤◌, ◌<◌, some, none, true, false, [], ◌∷◌, pos, ◌≡◌, refl, arith,
}
use ucloud_sandboxes_sdk.Json.{Fields, obj, str, int, arr, cons, nil, field, end}
use ucloud_sandboxes_sdk.Errors.{timeout_error, unreachable, ok, err}
use ucloud_sandboxes_sdk.Clock.{remaining}
use ucloud_sandboxes_sdk.Transport.Loop.{returned}
use ucloud_sandboxes_sdk.Job.Record.{JobRecord, terminal}
use ucloud_sandboxes_sdk.Job.Delay.{job_read_delay, status_delay, is_early}
use ucloud_sandboxes_sdk.Job.Wait.{
  StatusReply, job_wait, job_wait_round, job_wait_request, after_status, wait_pause,
  job_wait-terminal,
}
use ucloud_sandboxes_sdk.Build.State.{
  BuildState, accept_build, build_remaining, build_pause, build_retry_delay, may_poll_again,
}
use ucloud_sandboxes_sdk.Build.Loop.{Poll, wait_image_build, poll_round, after_build, after_failure}
use ucloud_sandboxes_sdk.Status.Records.{
  AllStatuses, is_status, check_status, check_statuses, sandbox_status_records,
  sandbox_status_records-AllStatuses,
}
use ucloud_sandboxes_sdk.Examples.Values.{python}

abbrev job : JobRecord
job = record {
  sandbox_id = "a";
  sandbox_generation = pos 1;
  job_id = "j";
  spec_sha256 = "";
  state = "running";
  pid = 0;
  started_at = "";
  completed_at = "";
  exit_code = none;
  signal = 0;
  stdout_bytes = 0;
  stderr_bytes = 0;
  stdout_truncated = false;
  stderr_truncated = false;
  sequence = 0;
  updated_at = "";
  cursor = "c1";
  cursor_from_server = true;
  retry_after = none;
}

abbrev ended_job : JobRecord
ended_job = record job { state = "failed" }

-- The job runs at the first read and has failed at the second.
abbrev statuses : ℕ → StatusReply
statuses zero = record { status = ok job; took = 4; overslept = 0 }
statuses (suc k) = record { status = ok ended_job; took = 4; overslept = 0 }

statuses_take_time : (k : ℕ) → 0 < (statuses k).took
statuses_take_time zero = omega arith
statuses_take_time (suc k) = omega arith

waits_for_job : job_wait statuses "j" (some 5000000) 1000000 3 0 10 "c1" ≡ returned ended_job
unfolding job_wait job_wait_round after_status terminal job_wait_request remaining wait_pause
    job_read_delay status_delay is_early
waits_for_job = refl

job_wait-terminal_example :
    (terminal ended_job ≡ true) × ((k : ℕ) × (0 ≤ k) × ((statuses k).status ≡ ok ended_job))
job_wait-terminal_example =
    job_wait-terminal statuses "j" (some 5000000) 1000000 3 0 10 "c1" ended_job waits_for_job

abbrev built : Fields
built = field "build_id" (str "b") (field "status" (str "succeeded") end)

-- The first poll times out, the second brings the build.
abbrev polls : ℕ → Poll
polls zero = record {
  outcome = err (timeout_error unreachable);
  took = 4;
  jitter = 0;
  overslept = 0;
}
polls (suc k) = record { outcome = ok built; took = 4; jitter = 0; overslept = 0 }

polls_take_time : (k : ℕ) → 0 < (polls k).took
polls_take_time zero = omega arith
polls_take_time (suc k) = omega arith

abbrev unseen : BuildState
unseen = record { build = none; last_seen = none; failures = 0 }

waits_for_build :
    wait_image_build python polls "b" (some 5000000) 1000000 3 0 10 unseen ≡ returned built
unfolding wait_image_build poll_round after_build after_failure accept_build build_remaining
    build_pause build_retry_delay may_poll_again remaining
waits_for_build = refl

-- Sandbox "a" in its first generation.
abbrev status_fields : Fields
status_fields = field "id" (str "a") (
    field "spec" (obj (field "id" (str "a") end)) (
      field "generation" (int (pos 1)) (
        field "state" (str "running")
          (field "cached_state" (str "running") (field "node" (obj end) end)))))

abbrev status_payload : Fields
status_payload =
    field "view" (str "status") (field "sandboxes" (arr (cons (obj status_fields) nil)) end)

reads_status : sandbox_status_records status_payload (some ("a" ∷ [])) ≡ ok (status_fields ∷ [])
unfolding sandbox_status_records check_statuses check_status is_status
reads_status = refl

sandbox_status_records-AllStatuses_example : AllStatuses (some ("a" ∷ [])) [] (status_fields ∷ [])
sandbox_status_records-AllStatuses_example =
    sandbox_status_records-AllStatuses status_payload (some ("a" ∷ [])) (status_fields ∷ [])
      reads_status
