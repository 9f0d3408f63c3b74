-- ===== src/Transport/Async.antt =====
-- One call of the asynchronous client (src/ucloud_sandboxes_sdk/client.py:
-- `AsyncSandboxClient._send`, `_request_json_response`, `_request_bytes`).
use ucloud_sandboxes_sdk.Prelude.{
  ℕ, zero, suc, ◌+◌, String, true, Option, none, some, List, [], ◌∷◌, ℤ, if◌then◌else◌,
}
use ucloud_sandboxes_sdk.Json.{null}
use ucloud_sandboxes_sdk.Errors.{
  ApiError, plain, Exception, api_error, assertion_error, certificate_error, transport_error,
  Result, ok, err, too_large, unreachable,
}
use ucloud_sandboxes_sdk.Runtime.{Runtime}
use ucloud_sandboxes_sdk.Clock.{deadline, required_remaining, request_timeout, can_sleep}
use ucloud_sandboxes_sdk.Retry.Delay.{connection_retry_delay}
use ucloud_sandboxes_sdk.Retry.Policy.{retry_attempts, retry_error}
use ucloud_sandboxes_sdk.Transport.Decode.{
  Headers, is_success, node_error, connection_error, budget_exhausted, max_json_response,
}
use ucloud_sandboxes_sdk.Transport.Loop.{
  Ended, returned, raised, out_of_fuel, Verdict, finish, again, Call, has_attempt,
}
use ucloud_sandboxes_sdk.Transport.Requests.{
  Body, Answer, accept_json, request_content, max_file_body,
}

-- What the request comes to: an answer, with its body unless that is past the limit, or an error of
-- the HTTP library. `connector` is a `ClientConnectorError` of neither a certificate nor TLS.
pub data AsyncOutcome : Type 0 where
  answered : ℕ → Headers → Option String → AsyncOutcome
  connector certificate other : AsyncOutcome

pub record AsyncExchange : Type 0 where
  pub outcome : AsyncOutcome
  pub took : ℕ
  pub jitter : ℕ
  pub overslept : ℕ

-- When a request is sent, and its timeout.
abbrev pub AsyncSent : Type 0
AsyncSent = ℕ × ℕ

-- The body as text, the status and the headers.
abbrev pub Raw : Type 0
Raw = String × ℕ × Headers

abbrev pub caused_by_os : ApiError → ApiError
caused_by_os e = record e { os_cause = true }

module _ (py : Runtime) (method path : String) (timeout : ℤ) (success_limit : ℕ) where
  abbrev pub send_call : Call Raw
  send_call = record {
    method = method;
    path = path;
    timeout = timeout;
    accept = λ status headers raw. ok (raw, status, headers);
    limit = success_limit;
    expired = λ e. e;
  }

  abbrev limit_of : ℕ → ℕ
  limit_of status = if is_success status then success_limit else max_json_response

  unfoldable pub after_node_error : ApiError → ℕ → ℕ → Option ℕ → ℕ → Verdict Raw
  after_node_error e attempt jitter d now =
      elim (retry_error py e attempt method path (retry_attempts method path) jitter) [
        | some delay ↦
            if can_sleep delay d now
            then again delay
            else finish (raised (api_error (budget_exhausted e (suc attempt))))
        | none ↦ finish (raised (api_error e))
      ]

  unfoldable pub after_connector : ℕ → Option ℕ → ℕ → Verdict Raw
  after_connector attempt d now =
      let failure = finish (raised (api_error (caused_by_os (connection_error (suc attempt))))) in
      elim (connection_retry_delay attempt (retry_attempts method path)) [
        | some delay ↦ if can_sleep delay d now then again delay else failure
        | none ↦ failure
      ]

  unfoldable pub after_async : AsyncOutcome → ℕ → ℕ → Option ℕ → ℕ → Verdict Raw
  unfolding after_node_error after_connector
  after_async (answered status headers none) attempt jitter d now = finish (
      raised (
        api_error (record (plain (too_large (limit_of status)) null) {
          status_code = some status;
          headers = headers;
        })))
  after_async (answered status headers (some raw)) attempt jitter d now =
      if is_success status
      then finish (returned (raw, status, headers))
      else elim (node_error py raw status headers) [
        | err e ↦ finish (raised e)
        | ok e ↦ after_node_error e attempt jitter d now
      ]
  after_async connector attempt jitter d now = after_connector attempt d now
  after_async certificate attempt jitter d now = finish (raised certificate_error)
  after_async other attempt jitter d now = finish (raised transport_error)

  unfoldable pub resume_async :
      Verdict Raw → (ℕ → Ended Raw × List AsyncSent) → Ended Raw × List AsyncSent
  resume_async (finish e) rest = (e, [])
  resume_async (again delay) rest = rest delay

  module _ (server : ℕ → AsyncExchange) (d : Option ℕ) where
    abbrev pub async_later : ℕ → ℕ → ℕ
    async_later attempt now = now + (server attempt).took

    abbrev pub async_verdict : ℕ → ℕ → Verdict Raw
    async_verdict attempt now =
        after_async (server attempt).outcome attempt (server attempt).jitter d
          (async_later attempt now)

    abbrev log_async : AsyncSent → Ended Raw × List AsyncSent → Ended Raw × List AsyncSent
    log_async s (e, sent) = (e, s ∷ sent)

    unfoldable pub async_round :
        ℕ → ℕ → (ℕ → Ended Raw × List AsyncSent) → Ended Raw × List AsyncSent
    unfolding resume_async
    async_round attempt now rest =
        if has_attempt py send_call attempt
        then elim (required_remaining d now) [
          | err e ↦ (raised e, [])
          | ok left ↦
              log_async (now, request_timeout left timeout)
                (resume_async (async_verdict attempt now) rest)
        ]
        else (raised (assertion_error unreachable), [])

    unfoldable pub async_loop : ℕ → ℕ → ℕ → Ended Raw × List AsyncSent
    async_loop zero attempt now = (out_of_fuel, [])
    async_loop (suc fuel) attempt now = async_round attempt now λ delay.
        async_loop fuel (suc attempt)
          (async_later attempt now + (delay + (server attempt).overslept))

  -- `_send`.
  unfoldable pub send : (ℕ → AsyncExchange) → ℕ → ℕ → Ended Raw × List AsyncSent
  send server fuel now = async_loop server (deadline (some timeout) now) fuel 0 now

abbrev pub of_result : {A : Type 0} → Result Exception A → Ended A
of_result (ok a) = returned a
of_result (err e) = raised e

abbrev pub json_ended : Runtime → Ended Raw → Ended Answer
json_ended py (returned (raw, status, headers)) = of_result (accept_json py status headers raw)
json_ended py (raised e) = raised e
json_ended py out_of_fuel = out_of_fuel

abbrev json_answer : Runtime → Ended Raw × List AsyncSent → Ended Answer × List AsyncSent
json_answer py (e, sent) = (json_ended py e, sent)

abbrev raw_body : Ended Raw → Ended String
raw_body (returned (raw, _, _)) = returned raw
raw_body (raised e) = raised e
raw_body out_of_fuel = out_of_fuel

abbrev raw_answer : Ended Raw × List AsyncSent → Ended String × List AsyncSent
raw_answer (e, sent) = (raw_body e, sent)

module _ (py : Runtime) (server : ℕ → AsyncExchange) (fuel now : ℕ) where
  unfoldable pub async_request_json_response :
      String → String → Option ℕ → Option Body → ℤ → Ended Answer × List AsyncSent
  async_request_json_response method path payload body timeout =
      elim (request_content payload body) [
        | err e ↦ (raised e, [])
        | ok _ ↦ json_answer py (send py method path timeout max_json_response server fuel now)
      ]

  unfoldable pub async_request_bytes : String → String → ℤ → Ended String × List AsyncSent
  async_request_bytes method path timeout =
      raw_answer (send py method path timeout max_file_body server fuel now)
