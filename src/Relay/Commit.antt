-- ===== src/Relay/Commit.antt =====
-- Repeated calls of the relay, and forwarding a request (src/ucloud_sandboxes_sdk/relay.py:
-- `RelayWorkerClient.commit_response_bytes_to`, `unregister_rollout`, `forward_to`,
-- `_safe_http_headers`).
use ucloud_sandboxes_sdk.Prelude.{
  ℕ, zero, suc, max, String, Bool, true, Option, none, some, List, [], ◌∷◌, codes, lower,
  same_codes, any, if◌then◌else◌, ◌≡◌, refl, ap, subst, ◌∙◌, arith, inl, inr,
}
use ucloud_sandboxes_sdk.Json.{Fields, null}
use ucloud_sandboxes_sdk.Errors.{
  ApiError, plain, Exception, api_error, value_error, assertion_error, invalid_argument, too_large,
  unreachable, Result, ok, err, ◌>>◌, check, Result-cases,
}
use ucloud_sandboxes_sdk.Runtime.{Runtime}
use ucloud_sandboxes_sdk.Retry.Delay.{retry_after}
use ucloud_sandboxes_sdk.Relay.Values.{validate_http_body_size, max_relay_http_body}
use ucloud_sandboxes_sdk.Relay.Request.{Request}
use ucloud_sandboxes_sdk.Relay.Registration.{Tokens, registration_token, forget_registration}
use ucloud_sandboxes_sdk.Relay.Poll.{relay_error_is_retryable, relay_retry_delay}

-- `for attempt in range(attempts)` around a call: what the call returns, or the exception of the last
-- attempt or of one that is not repeated; and the pauses.
module _ {A : Type 0} (send : ℕ → Result Exception A) (pause : ApiError → ℕ → ℕ) where
  unfoldable pub repeat_call : ℕ → ℕ → Result Exception A × List ℕ
  repeat_call zero attempt = (err (assertion_error unreachable), [])
  repeat_call (suc left) attempt =
      let rest = repeat_call left (suc attempt) in
      elim (send attempt) [
        | ok a ↦ (ok a, [])
        | err e ↦ elim e [
          | api_error x ↦
              if relay_error_is_retryable x
              then elim left [
                | zero ↦ (err (api_error x), [])
                | suc _ ↦ (rest.0, pause x attempt ∷ rest.1)
              ]
              else (err (api_error x), [])
          | other ↦ (err other, [])
        ]
      ]

  -- The attempts from one on that come to a result: each but the last failed with an error of the relay
  -- that is retryable, and paused.
  pub data Attempts : ℕ → ℕ → A → List ℕ → Type 0 where
    at_last : {left attempt : ℕ} {a : A} → send attempt ≡ ok a → Attempts (suc left) attempt a []
    repeats :
        {left attempt : ℕ} {a : A} {pauses : List ℕ} (e : ApiError)
        → send attempt ≡ err (api_error e)
        → relay_error_is_retryable e ≡ true
        → Attempts left (suc attempt) a pauses
        → Attempts (suc left) attempt a (pause e attempt ∷ pauses)

  at_once :
      (attempt left : ℕ) (b : A) {a : A} (pauses : List ℕ)
      → send attempt ≡ ok b
      → b ≡ a
      → [] ≡ pauses
      → Attempts (suc left) attempt a pauses
  at_once attempt left b pauses e same none_left =
      subst (Attempts (suc left) attempt _) none_left (at_last (e ∙ ap ok same))

  both : {r : Result Exception A × List ℕ} {a : A} → r.0 ≡ ok a → r ≡ (ok a, r.1)
  both {r} h = ap (λ t. (t, r.1)) h

  repeated :
      (x : Exception) (left attempt : ℕ) (a : A) (pauses : List ℕ)
      → send attempt ≡ err x
      → repeat_call (suc (suc left)) attempt ≡ (ok a, pauses)
      → (y : ApiError) × (x ≡ api_error y)
        × (relay_error_is_retryable y ≡ true)
        × ((repeat_call (suc left) (suc attempt)).0 ≡ ok a)
        × (pause y attempt ∷ (repeat_call (suc left) (suc attempt)).1 ≡ pauses)
  unfolding repeat_call
  repeated (api_error y) left attempt a pauses e h =
      (y, refl, ground arith, ground arith, ground arith)
  repeated x left attempt a pauses e h = absurd (ground arith)

  pub repeat_call-Attempts :
      (left attempt : ℕ) (a : A) (pauses : List ℕ)
      → repeat_call left attempt ≡ (ok a, pauses)
      → Attempts left attempt a pauses
  unfolding repeat_call
  repeat_call-Attempts zero attempt a pauses h = absurd (ground arith)
  repeat_call-Attempts (suc zero) attempt a pauses h = elim (Result-cases (send attempt)) [
    | inr (b, e) ↦ at_once attempt zero b pauses e (ground arith) (ground arith)
    | inl (x, e) ↦ absurd (ground arith)
  ]
  repeat_call-Attempts (suc (suc left)) attempt a pauses h = elim (Result-cases (send attempt)) [
    | inr (b, e) ↦ at_once attempt (suc left) b pauses e (ground arith) (ground arith)
    | inl (x, e) ↦
        let (y, same, retry, ended, paused) = repeated x left attempt a pauses e h in
        subst (Attempts (suc (suc left)) attempt a) paused (
          repeats y (e ∙ ap err same) retry
            (repeat_call-Attempts (suc left) (suc attempt) a _ (both ended)))
  ]

abbrev pub commit_pause : Runtime → ℕ → ApiError → ℕ → ℕ
commit_pause py retry_delay e attempt = elim (retry_after py e.headers) [
  | none ↦ retry_delay
  | some after ↦ after
]

abbrev pub unregister_pause : Runtime → ApiError → ℕ → ℕ
unregister_pause py e attempt = relay_retry_delay py e (suc attempt)

-- The response that is committed.
pub record Committed : Type 0 where
  pub body : List ℕ
  pub status : ℕ
  pub headers : List (String × String)

-- `commit_response_bytes_to`: `respond` is `respond_to`, of the response and the attempt's number. The
-- pause is the answer's Retry-After, or the one that the caller gives.
unfoldable pub commit_response_bytes :
    Runtime
    → (Committed → ℕ → Result Exception Fields)
    → Committed
    → ℕ
    → ℕ
    → Result Exception Fields × List ℕ
unfolding repeat_call
commit_response_bytes py respond response attempts retry_delay =
    repeat_call (respond response) (commit_pause py retry_delay) (max 1 attempts) 0

abbrev forgotten :
    String → Tokens → Result Exception Fields × List ℕ → Result Exception Fields × Tokens
forgotten rollout_id tokens (ok response, _) = (ok response, forget_registration rollout_id tokens)
forgotten rollout_id tokens (err e, _) = (err e, tokens)

-- `unregister_rollout`: `send token attempt` is the DELETE; the registrations after it.
unfoldable pub unregister_rollout :
    Runtime
    → (String → ℕ → Result Exception Fields)
    → String
    → Option String
    → Tokens
    → Result Exception Fields × Tokens
unfolding repeat_call
unregister_rollout py send rollout_id given tokens =
    elim (registration_token rollout_id given tokens) [
      | err e ↦ (err e, tokens)
      | ok (token, kept) ↦
          forgotten rollout_id kept (repeat_call (send token) (unregister_pause py) 3 0)
    ]

abbrev pub hop_by_hop : List String
hop_by_hop =
    "connection" ∷ "content-length" ∷ "host" ∷ "keep-alive" ∷ "proxy-authenticate"
    ∷ "proxy-authorization" ∷ "te" ∷ "trailer" ∷ "transfer-encoding" ∷ "upgrade" ∷ []

-- `str(key).lower() in hop_by_hop`.
abbrev pub is_hop_by_hop : String → Bool
is_hop_by_hop key = any (λ name. same_codes (lower (codes key)) (codes name)) hop_by_hop

-- `_safe_http_headers` of strings.
unfoldable pub safe_http_headers : List (String × String) → List (String × String)
safe_http_headers [] = []
safe_http_headers ((key, v) ∷ headers) =
    let rest = safe_http_headers headers in if is_hop_by_hop key then rest else (key, v) ∷ rest

-- What the upstream comes to; a body past the limit is none. An error of the operating system is one
-- of time, or another.
pub data Upstream : Type 0 where
  responded : ℕ → List (String × String) → Option (List ℕ) → Upstream
  failed : (timed_out : Bool) → Upstream

-- The response to what the upstream came to.
unfoldable pub answer_upstream : (Bool → List ℕ) → Upstream → Result Exception Committed
unfolding safe_http_headers
answer_upstream error_body (failed timed_out) = ok (record {
  body = error_body timed_out;
  status = if timed_out then 504 else 502;
  headers = ("Content-Type", "application/json") ∷ [];
})
answer_upstream error_body (responded status headers none) =
    err (api_error (plain (too_large max_relay_http_body) null))
answer_upstream error_body (responded status headers (some body)) =
    ok (record { body = body; status = status; headers = safe_http_headers headers })

-- The request to the upstream; an empty body is sent as none.
pub record Forwarded : Type 0 where
  pub endpoint : String
  pub method : String
  pub body : List ℕ
  pub headers : List (String × String)

abbrev pub forwarded_request : Request → List (String × String) → Forwarded
forwarded_request r headers = record {
  endpoint = r.endpoint;
  method = r.method;
  body = r.body_bytes;
  headers = headers;
}

-- The response of `forward_to`: `error_body` is `_forward_error_body`, `timeout` is whether the
-- forwarding timeout is finite and positive, and `upstream` is what a request comes to.
unfoldable pub forwarded_response :
    (Bool → List ℕ) → Bool → (Forwarded → Upstream) → Request → Result Exception Committed
unfolding answer_upstream
forwarded_response error_body timeout upstream r = do
  validate_http_body_size r.body_bytes
  check timeout (value_error (invalid_argument "forward timeout"))
  answer_upstream error_body (upstream (forwarded_request r (safe_http_headers r.headers)))

abbrev commit_answer :
    Runtime
    → (Committed → ℕ → Result Exception Fields)
    → Result Exception Committed
    → Result Exception Fields × List ℕ
commit_answer py respond (err e) = (err e, [])
commit_answer py respond (ok response) = commit_response_bytes py respond response 60 1000000

-- `forward_to`: the response, committed with the default attempts and pause.
unfoldable pub forward_to :
    Runtime
    → (Committed → ℕ → Result Exception Fields)
    → (Bool → List ℕ)
    → Bool
    → (Forwarded → Upstream)
    → Request
    → Result Exception Fields × List ℕ
unfolding forwarded_response commit_response_bytes
forward_to py respond error_body timeout upstream r =
    commit_answer py respond (forwarded_response error_body timeout upstream r)
