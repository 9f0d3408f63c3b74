-- ===== src/Transport/Loop.antt =====
-- The attempts of one call (src/ucloud_sandboxes_sdk/client.py:
-- `SandboxClient._request_json_response`, `_request_bytes`, `_retry_attempt_numbers`).
use ucloud_sandboxes_sdk.Prelude.{
  ℕ, zero, suc, ◌+◌, String, Bool, true, Option, none, some, List, [], ◌∷◌, ℤ, leb, if◌then◌else◌,
}
use ucloud_sandboxes_sdk.Json.{null}
use ucloud_sandboxes_sdk.Errors.{
  ApiError, plain, Exception, api_error, assertion_error, unicode_error, transport_error, Result,
  ok, err, too_large, os_failure, unreachable,
}
use ucloud_sandboxes_sdk.Runtime.{Runtime}
use ucloud_sandboxes_sdk.Clock.{deadline, required_remaining, request_timeout, can_sleep}
use ucloud_sandboxes_sdk.Retry.Delay.{connection_retry_delay}
use ucloud_sandboxes_sdk.Retry.Policy.{retry_attempts, retry_error}
use ucloud_sandboxes_sdk.Transport.Decode.{
  Headers, OsError, sync_node_error, sync_connect_failure, connection_error, budget_exhausted,
}

-- What one opening of the connection comes to.
pub data Outcome : Type 0 where
  answered : ℕ → Headers → String → Outcome
  -- an answer that is no UTF-8
  undecodable : Outcome
  response_too_large : Outcome
  -- an HTTP error, with its body unless that is past the limit
  http_error : ℕ → Headers → Option String → Outcome
  os_error : OsError → Outcome
  -- an exception of `http.client` that is no OSError, as IncompleteRead: nothing catches it
  http_exception : Outcome

pub record Exchange : Type 0 where
  pub outcome : Outcome
  -- microseconds until the outcome
  pub took : ℕ
  -- `random.random()`, in millionths
  pub jitter : ℕ
  -- how much longer than asked the pause after it lasts
  pub overslept : ℕ

-- A request that was sent: when, with which socket timeout, and what came of it.
pub record Sent : Type 0 where
  pub at : ℕ
  pub timeout : ℕ
  pub exchange : Exchange

pub data Ended (A : Type 0) : Type 0 where
  returned : A → Ended A
  raised : Exception → Ended A
  out_of_fuel : Ended A

-- What a call does after an outcome: end, or pause and repeat.
pub data Verdict (A : Type 0) : Type 0 where
  finish : Ended A → Verdict A
  again : ℕ → Verdict A

-- The parts in which the two loops differ.
pub record Call (A : Type 0) : Type 0 where
  pub method : String
  pub path : String
  -- `timeout_seconds`
  pub timeout : ℤ
  pub accept : ℕ → Headers → String → Result Exception A
  pub limit : ℕ
  -- what the check of the deadline raises
  pub expired : Exception → Exception

abbrev caused : ApiError → ApiError
caused e = record e { os_cause = true }

module _ {A : Type 0} (py : Runtime) (call : Call A) where
  abbrev attempts : Option ℕ
  attempts = retry_attempts call.method call.path

  -- `if _sleep_for_retry(delay, deadline): continue`, else the error.
  abbrev pause_or : ℕ → ApiError → Option ℕ → ℕ → Verdict A
  pause_or delay e d now =
      if can_sleep delay d now then again delay else finish (raised (api_error e))

  unfoldable pub after_http_error : ApiError → ℕ → ℕ → Option ℕ → ℕ → Verdict A
  after_http_error e attempt jitter d now =
      elim (retry_error py e attempt call.method call.path attempts jitter) [
        | some delay ↦ pause_or delay (caused (budget_exhausted e (suc attempt))) d now
        | none ↦ finish (raised (api_error (caused e)))
      ]

  unfoldable pub after_os_error : OsError → ℕ → Option ℕ → ℕ → Verdict A
  after_os_error e attempt d now =
      if sync_connect_failure e
      then elim (connection_retry_delay attempt attempts) [
        | some delay ↦ pause_or delay (caused (connection_error (suc attempt))) d now
        | none ↦ finish (raised (api_error (caused (connection_error (suc attempt)))))
      ]
      else finish (raised (api_error (caused (plain os_failure null))))

  unfoldable pub after : Outcome → ℕ → ℕ → Option ℕ → ℕ → Verdict A
  unfolding after_http_error after_os_error
  after (answered status headers raw) attempt jitter d now = elim (call.accept status headers raw) [
    | ok a ↦ finish (returned a)
    | err e ↦ finish (raised e)
  ]
  after undecodable attempt jitter d now = finish (raised unicode_error)
  after http_exception attempt jitter d now = finish (raised transport_error)
  after response_too_large attempt jitter d now =
      finish (raised (api_error (plain (too_large call.limit) null)))
  after (http_error status headers body) attempt jitter d now =
      elim (sync_node_error py body status headers) [
        | err e ↦ finish (raised e)
        | ok e ↦ after_http_error e attempt jitter d now
      ]
  after (os_error e) attempt jitter d now = after_os_error e attempt d now

  -- `attempt < max_attempts`, or always.
  unfoldable pub has_attempt : ℕ → Bool
  has_attempt attempt = elim attempts [ none ↦ true | some limit ↦ leb (suc attempt) limit ]

  unfoldable pub resume : Verdict A → (ℕ → Ended A × List Sent) → Ended A × List Sent
  resume (finish e) rest = (e, [])
  resume (again delay) rest = rest delay

  abbrev log : Sent → Ended A × List Sent → Ended A × List Sent
  log s (e, sent) = (e, s ∷ sent)

  module _ (server : ℕ → Exchange) (d : Option ℕ) where
    abbrev pub sent : ℕ → ℕ → Option ℕ → Sent
    sent attempt now left = record {
      at = now;
      timeout = request_timeout left call.timeout;
      exchange = server attempt;
    }

    abbrev pub later : ℕ → ℕ → ℕ
    later attempt now = now + (server attempt).took

    abbrev pub verdict : ℕ → ℕ → Verdict A
    verdict attempt now =
        after (server attempt).outcome attempt (server attempt).jitter d (later attempt now)

    -- One attempt: `rest` goes on after a pause.
    unfoldable pub round : ℕ → ℕ → (ℕ → Ended A × List Sent) → Ended A × List Sent
    unfolding resume
    round attempt now rest =
        if has_attempt attempt
        then elim (required_remaining d now) [
          | err e ↦ (raised (call.expired e), [])
          | ok left ↦ log (sent attempt now left) (resume (verdict attempt now) rest)
        ]
        else (raised (assertion_error unreachable), [])

    -- The `for` loop from an attempt on, at a time, against the exchanges of the attempts.
    unfoldable pub loop : ℕ → ℕ → ℕ → Ended A × List Sent
    loop zero attempt now = (out_of_fuel, [])
    loop (suc fuel) attempt now =
        round attempt now λ delay.
          loop fuel (suc attempt) (later attempt now + (delay + (server attempt).overslept))

  unfoldable pub run : (ℕ → Exchange) → ℕ → ℕ → Ended A × List Sent
  run server fuel now = loop server (deadline (some call.timeout) now) fuel 0 now
