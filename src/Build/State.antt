-- ===== src/Build/State.antt =====
-- What the wait for an image build keeps (src/ucloud_sandboxes_sdk/client.py: `_ImageBuildWait`).
-- The message of its `TimeoutError` names the build, not what was last seen of it.
use ucloud_sandboxes_sdk.Prelude.{
  ℕ, suc, ◌+◌, ◌*◌, ◌/◌, ◌^◌, ◌-◌, ◌≤◌, min, max, String, Bool, true, false, not, Option, none,
  some, [], ◌∷◌, ltb, leb, eqb, length, codes, ◌&&◌, if◌then◌else◌, ◌≡◌, arith,
}
use ucloud_sandboxes_sdk.Json.{Json, Fields, obj, get, in_texts, dict, some_text}
use ucloud_sandboxes_sdk.Errors.{
  ApiError, Exception, api_error, timeout_error, timed_out, retryable, plain, invalid_answer,
  Result, ok, err, ◌>>=◌,
}
use ucloud_sandboxes_sdk.Runtime.{Runtime}
use ucloud_sandboxes_sdk.Clock.{remaining}
use ucloud_sandboxes_sdk.Retry.Delay.{second, retry_after}
use ucloud_sandboxes_sdk.Retry.Policy.{one_of_nat}
use ucloud_sandboxes_sdk.Job.Record.{text_or_empty}
use ucloud_sandboxes_sdk.Relay.Values.{same_json}

-- What `on_status` is told apart by: the status, its time and the length of the log's tail.
pub record Seen : Type 0 where
  pub status : Json
  pub updated_at : Json
  pub log_length : ℕ

pub record BuildState : Type 0 where
  pub build : Option Fields
  pub last_seen : Option Seen
  pub failures : ℕ

abbrev same_seen : Seen → Option Seen → Bool
same_seen s none = false
same_seen s (some t) =
    same_json s.status t.status
    && same_json s.updated_at t.updated_at
    && eqb s.log_length t.log_length

abbrev pub seen_of : Runtime → Fields → Seen
seen_of py build = record {
  status = get build "status";
  updated_at = get build "updated_at";
  log_length = length (codes (text_or_empty py (get build "log_tail")));
}

-- Whether `on_status` is called.
unfoldable pub is_news : Runtime → Fields → BuildState → Bool
is_news py build s = not (same_seen (seen_of py build) s.last_seen)

abbrev pub is_done : Fields → Bool
is_done build = in_texts (get build "status") ("succeeded" ∷ "failed" ∷ [])

-- `_ImageBuildWait.accept`: whether the build is over, and the state after it.
unfoldable pub accept_build : Runtime → Fields → BuildState → Bool × BuildState
accept_build py build s = (
  is_done build,
  record { build = some build; last_seen = some (seen_of py build); failures = 0 },
)

-- `_ImageBuildWait._remaining`.
unfoldable pub build_remaining : String → Option ℕ → ℕ → Result Exception (Option ℕ)
build_remaining build_id d now = elim (remaining d now) [
  | none ↦ ok none
  | some r ↦ if leb r 0 then err (timeout_error (timed_out build_id)) else ok (some r)
]

abbrev pub capped : ℕ → Option ℕ → ℕ
capped delay none = delay
capped delay (some r) = min delay r

-- `_ImageBuildWait.delay`: at least a tenth of a second.
unfoldable pub build_pause : String → Option ℕ → ℕ → ℕ → Result Exception ℕ
unfolding build_remaining
build_pause build_id d now poll = do
  left ← build_remaining build_id d now
  ok (capped (max 100000 poll) left)

-- `transient`, for a `SandboxApiError`: `_transient_image_poll_error`.
unfoldable pub is_transient : ApiError → Bool
is_transient e = elim e.status_code [
  | none ↦ e.os_cause
  | some status ↦ one_of_nat status (408 ∷ 429 ∷ 500 ∷ 502 ∷ 503 ∷ 504 ∷ [])
]

abbrev pub says_final : ApiError → Bool
says_final e = elim (retryable e) [ none ↦ false | some b ↦ not b ]

-- Whether the exception may be followed by another poll.
unfoldable pub may_poll_again : Exception → Bool
unfolding is_transient
may_poll_again (api_error e) = is_transient e && not (says_final e)
may_poll_again _ = true

-- `exc.retry_after_seconds` of a `SandboxApiError`.
abbrev pub asked_pause : Runtime → Exception → ℕ
asked_pause py (api_error e) = elim (retry_after py e.headers) [ none ↦ 0 | some after ↦ after ]
asked_pause py _ = 0

abbrev pub failure_delay : ℕ → ℕ
failure_delay failures = min (5 * second) (500000 * 2 ^ min (failures - 1) 4)

-- `delay *= 1.0 + random.random() * 0.2`, with `jitter` below a million.
abbrev pub jittered : ℕ → ℕ → ℕ
jittered delay jitter = delay + delay * jitter / (5 * second)

-- Without a deadline, six failures one after another are the most.
abbrev pub too_often : Option ℕ → ℕ → Bool
too_often none failures = ltb 6 failures
too_often (some _) failures = false

abbrev failed_once : BuildState → BuildState
failed_once s = record s { failures = suc s.failures }

-- `_ImageBuildWait.retry_delay`: none where the exception is to be raised.
unfoldable pub build_retry_delay :
    Runtime
    → String
    → Option ℕ
    → Exception
    → BuildState
    → ℕ
    → ℕ
    → Result Exception (Option ℕ) × BuildState
unfolding may_poll_again build_remaining
build_retry_delay py build_id d e s jitter now =
    if not (may_poll_again e)
    then (ok none, s)
    else if too_often d (suc s.failures)
    then (ok none, failed_once s)
    else (
      (do
        left ← build_remaining build_id d now
        ok (
            some (
              capped (jittered (max (failure_delay (suc s.failures)) (asked_pause py e)) jitter)
                left))),
      failed_once s,
    )

abbrev bad_build {ℓ} : {A : Type ℓ} → Fields → Result Exception A
bad_build payload = err (api_error (plain (invalid_answer "image build payload") (obj payload)))

-- `_image_build_response`.
unfoldable pub image_build_response : Fields → Result Exception Fields
image_build_response payload = elim (dict (get payload "build")) [
  | none ↦ bad_build payload
  | some build ↦ elim (some_text (get build "build_id")) [
    | none ↦ bad_build payload
    | some _ ↦ ok build
  ]
]

-- Without a deadline, a poll that failed is repeated only up to the sixth failure in a row; each
-- failure is counted.
pub build_retry_delay-failures :
    (py : Runtime) (build_id : String) (e : Exception) (s : BuildState) (jitter now delay : ℕ)
    → (build_retry_delay py build_id none e s jitter now).0 ≡ ok (some delay)
    → (suc s.failures ≤ 6)
      × ((build_retry_delay py build_id none e s jitter now).1.failures ≡ suc s.failures)
unfolding build_retry_delay
build_retry_delay-failures py build_id e s jitter now delay h = ground arith

-- With a deadline, the pause before a poll is repeated is not longer than the time that is left.
pub build_retry_delay-le :
    (py : Runtime) (build_id : String) (d : ℕ) (e : Exception) (s : BuildState)
    (jitter now delay : ℕ)
    → (build_retry_delay py build_id (some d) e s jitter now).0 ≡ ok (some delay)
    → now + delay ≤ d
unfolding build_retry_delay build_remaining remaining
build_retry_delay-le py build_id d e s jitter now delay h = ground arith
