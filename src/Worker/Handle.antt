-- ===== src/Worker/Handle.antt =====
-- One leased request (src/ucloud_sandboxes_sdk/relay.py: `_handle_sync_request`,
-- `_is_streaming_model_request`, `_commit_sync_handler_result`, `_renew_sync_lease`).
use ucloud_sandboxes_sdk.Prelude.{
  ℕ, String, Bool, Option, none, some, List, [], ◌∷◌, ◌++◌, ◌&&◌, ◌||◌, codes, eqb, is_empty,
  same_codes, if◌then◌else◌,
}
use ucloud_sandboxes_sdk.Json.{Json, read, is_dict, is_true}
use ucloud_sandboxes_sdk.Errors.{ApiError, Exception, api_error, Result, ok, err}
use ucloud_sandboxes_sdk.Relay.Request.{Request}
use ucloud_sandboxes_sdk.Relay.Poll.{relay_error_is_retryable, relay_request_already_completed}

-- `text.partition("?")[0]`.
abbrev pub before_query : List ℕ → List ℕ
before_query [] = []
before_query (c ∷ s) = let rest = before_query s in if eqb c b'?' then [] else c ∷ rest

-- `text.rstrip("/")`.
abbrev pub without_slashes : List ℕ → List ℕ
without_slashes [] = []
without_slashes (c ∷ s) =
    let rest = without_slashes s in if eqb c b'/' && is_empty rest then [] else c ∷ rest

-- `text.endswith(suffix)`.
abbrev pub ends_with : List ℕ → List ℕ → Bool
ends_with suffix [] = same_codes suffix []
ends_with suffix (c ∷ s) = same_codes suffix (c ∷ s) || ends_with suffix s

abbrev pub is_model_endpoint : List ℕ → Bool
is_model_endpoint path =
    ends_with (codes "/chat/completions") path
    || ends_with (codes "/completions") path
    || ends_with (codes "/responses") path

-- `_is_streaming_model_request`.
unfoldable pub is_streaming_model_request : Request → Bool
is_streaming_model_request r =
    is_model_endpoint (without_slashes (before_query (codes r.endpoint)))
    && is_dict r.body
    && is_true (read r.body "stream")

-- What a handler returns: a `RelayResponse` or another value, which is its body.
pub data Reply : Type 0 where
  relay_response : Json → ℕ → List (String × String) → Reply
  value : Json → Reply

-- A call of the client for the request.
pub data Call : Type 0 where
  -- `error_request`, with its status
  error_request : ℕ → Call
  forward_to : String → Call
  respond_to : Json → ℕ → List (String × String) → Call

-- `_commit_sync_handler_result`; `respond_to` has the status 200 and no headers by default.
unfoldable pub commit_of : Reply → Call
commit_of (relay_response body status headers) = respond_to body status headers
commit_of (value body) = respond_to body 200 []

-- `error_request(relay_request, str(exc))`: its status is 502 by default.
abbrev pub failure_report : Call
failure_report = error_request 502

-- `handle` is the handler, `upstream` the base URL instead of one; `client` is what the client's
-- call returns or raises, the first one and the report after it.
module _ (handle : Request → Result Exception Reply) (upstream : Option String)
    (client : Call → Result Exception (Unit {0})) where
  -- The calls, with the ones that were made.
  abbrev pub call : Call → Result Exception (Unit {0}) × List Call
  call c = (client c, c ∷ [])

  -- The body of the `try`.
  unfoldable pub answer_request : Request → Result Exception (Unit {0}) × List Call
  answer_request r =
      if is_streaming_model_request r then call (error_request 400) else elim upstream [
        | some url ↦ call (forward_to url)
        | none ↦ elim (handle r) [ err e ↦ (err e, []) | ok reply ↦ call (commit_of reply) ]
      ]

  -- `except RelayApiError: raise` and `except Exception`.
  unfoldable pub or_report :
      Result Exception (Unit {0}) × List Call → Result Exception (Unit {0}) × List Call
  or_report (ok u, calls) = (ok u, calls)
  or_report (err (api_error e), calls) = (err (api_error e), calls)
  or_report (err e, calls) = (client failure_report, calls ++ (failure_report ∷ []))

  -- `renewal_errors[0]`, after the call returned.
  unfoldable pub with_renewal :
      Option ApiError
      → Result Exception (Unit {0}) × List Call
      → Result Exception (Unit {0}) × List Call
  with_renewal none (ok u, calls) = (ok u, calls)
  with_renewal (some e) (ok u, calls) =
      if relay_request_already_completed e then (ok u, calls) else (err (api_error e), calls)
  with_renewal renewal (err e, calls) = (err e, calls)

  -- `_handle_sync_request`: `renewal` is the error that the renewing thread left.
  unfoldable pub handle_request :
      Option ApiError → Request → Result Exception (Unit {0}) × List Call
  unfolding with_renewal or_report answer_request
  handle_request renewal r = with_renewal renewal (or_report (answer_request r))

-- `_renew_sync_lease`, until `stop` is set: `renewals` are what its calls return or raise. An
-- exception that is no RelayApiError ends the thread.
unfoldable pub renew_lease : List (Result Exception (Unit {0})) → Option ApiError
renew_lease [] = none
renew_lease (ok _ ∷ renewals) = renew_lease renewals
renew_lease (err (api_error e) ∷ renewals) =
    let rest = renew_lease renewals in if relay_error_is_retryable e then rest else some e
renew_lease (err _ ∷ renewals) = none
