-- ===== src/Transport/Replay.antt =====
-- What was answered to the requests that a call repeats (src/ucloud_sandboxes_sdk/client.py,
-- `SandboxClient._request_json_response`, `_request_bytes`).
use ucloud_sandboxes_sdk.Prelude.{
  ℕ, String, true, Option, some, List, [], ◌∷◌, ◌≡◌, arith, inl, inr, Option-cases,
}
use ucloud_sandboxes_sdk.Errors.{ApiError, ok, Result-cases}
use ucloud_sandboxes_sdk.Runtime.{Runtime}
use ucloud_sandboxes_sdk.Retry.Policy.{should_retry, retry_error, retry_attempts, error_code}
use ucloud_sandboxes_sdk.Retry.Fences.{
  AsksRetry, Refusal, IsGroupDeletion, IsUnsafe, retried-Refusal,
}
use ucloud_sandboxes_sdk.Transport.Decode.{
  Headers, url_error, gaierror, econnrefused, enetunreach, ehostunreach, sync_node_error,
  sync_connect_failure,
}
use ucloud_sandboxes_sdk.Transport.Loop.{
  Outcome, answered, undecodable, response_too_large, http_exception, http_error, os_error,
  Exchange, again, Call, after, after_http_error, after_os_error, sent, run,
}
use ucloud_sandboxes_sdk.Transport.Rule.{Cases, loop_rule}

-- An outcome that a request may be repeated after: a `URLError` for an address that is not found, a
-- refused connection, or a network or host that is not reached; a refusal with its own code, which asks
-- to come back; or any answer that asks to come back where a group is deleted.
pub data MayRepeat (py : Runtime) (method path : String) : Outcome → Type 0 where
  no_address : MayRepeat py method path (os_error (url_error gaierror))
  refused_connection : MayRepeat py method path (os_error (url_error econnrefused))
  no_network : MayRepeat py method path (os_error (url_error enetunreach))
  no_host : MayRepeat py method path (os_error (url_error ehostunreach))
  refused :
      {status : ℕ} {headers : Headers} {body : Option String} (e : ApiError) (code : ℕ)
      → sync_node_error py body status headers ≡ ok e
      → e.status_code ≡ some code
      → AsksRetry code e.body
      → Refusal method path (error_code e.body)
      → MayRepeat py method path (http_error status headers body)
  group_deletion :
      {status : ℕ} {headers : Headers} {body : Option String} (e : ApiError) (code : ℕ)
      → sync_node_error py body status headers ≡ ok e
      → e.status_code ≡ some code
      → AsksRetry code e.body
      → IsGroupDeletion method path
      → MayRepeat py method path (http_error status headers body)

-- All but the last.
abbrev pub AllButLast : {A : Type 0} → (A → Type 0) → List A → Type 0
AllButLast P [] = Unit
AllButLast P (x ∷ []) = Unit
AllButLast P (x ∷ y ∷ ys) = P x × AllButLast P (y ∷ ys)

AllButLast-cons :
    {A : Type 0} (P : A → Type 0) (x : A) (xs : List A)
    → P x
    → AllButLast P xs
    → AllButLast P (x ∷ xs)
AllButLast-cons P x [] p h = tt
AllButLast-cons P x (y ∷ ys) p h = (p, h)

retry_error-some :
    (py : Runtime) (e : ApiError) (attempt : ℕ) (method path : String) (max_attempts : Option ℕ)
    (jitter delay : ℕ)
    → retry_error py e attempt method path max_attempts jitter ≡ some delay
    → (code : ℕ) × (e.status_code ≡ some code)
      × (should_retry code e.body attempt method path max_attempts ≡ true)
unfolding retry_error
retry_error-some py e attempt method path max_attempts jitter delay h =
    elim (Option-cases e.status_code) [
      | inl missing ↦ ground arith
      | inr (code, p) ↦ (code, p, ground arith)
    ]

module _ {A : Type 0} (py : Runtime) (call : Call A) (u : IsUnsafe call.method call.path) where
  again-retry_error :
      (e : ApiError) (attempt jitter : ℕ) (d : Option ℕ) (now delay : ℕ)
      → after_http_error py call e attempt jitter d now ≡ again delay
      → (x : ℕ) × (retry_error py e attempt call.method call.path
            (retry_attempts call.method call.path)
            jitter
          ≡ some x)
  unfolding after_http_error
  again-retry_error e attempt jitter d now delay h = ground arith

  repeated_http-MayRepeat :
      (status : ℕ) (headers : Headers) (body : Option String) (e : ApiError) (attempt jitter : ℕ)
      (d : Option ℕ) (now delay : ℕ)
      → sync_node_error py body status headers ≡ ok e
      → after_http_error py call e attempt jitter d now ≡ again delay
      → MayRepeat py call.method call.path (http_error status headers body)
  repeated_http-MayRepeat status headers body e attempt jitter d now delay read h =
      let (x, some_delay) = again-retry_error e attempt jitter d now delay h in
      let (code, at, retried) =
        retry_error-some py e attempt call.method call.path _ jitter x some_delay in
      let (asks, names) = retried-Refusal code e.body attempt call.method call.path _ u retried in
      elim names [
        | inl refusal ↦ refused e code read at asks refusal
        | inr group ↦ group_deletion e code read at asks group
      ]

  repeated-MayRepeat :
      (o : Outcome) (attempt jitter : ℕ) (d : Option ℕ) (now delay : ℕ)
      → after py call o attempt jitter d now ≡ again delay
      → MayRepeat py call.method call.path o
  unfolding after after_os_error sync_connect_failure
  repeated-MayRepeat (answered status headers raw) attempt jitter d now delay h = ground arith
  repeated-MayRepeat undecodable attempt jitter d now delay h = cc
  repeated-MayRepeat response_too_large attempt jitter d now delay h = cc
  repeated-MayRepeat http_exception attempt jitter d now delay h = cc
  repeated-MayRepeat (http_error status headers body) attempt jitter d now delay h =
      elim (Result-cases (sync_node_error py body status headers)) [
        | inl (x, raised_at_once) ↦ ground arith
        | inr (e, read) ↦
            repeated_http-MayRepeat status headers body e attempt jitter d now delay read
              (ground arith)
      ]
  repeated-MayRepeat (os_error (url_error gaierror)) attempt jitter d now delay h = no_address
  repeated-MayRepeat (os_error (url_error econnrefused)) attempt jitter d now delay h =
      refused_connection
  repeated-MayRepeat (os_error (url_error enetunreach)) attempt jitter d now delay h = no_network
  repeated-MayRepeat (os_error (url_error ehostunreach)) attempt jitter d now delay h = no_host
  repeated-MayRepeat (os_error e) attempt jitter d now delay h = cc

  repeats :
      (server : ℕ → Exchange) (d : Option ℕ)
      → Cases py call server d (λ fuel attempt now r.
        AllButLast (λ s. MayRepeat py call.method call.path s.exchange.outcome) r.1)
  repeats server d = record {
    at_zero = λ attempt now. tt;
    no_attempt = λ fuel attempt now h. tt;
    too_late = λ fuel attempt now e h. tt;
    finished = λ fuel attempt now left e early done. tt;
    repeated = λ fuel attempt now left delay r early repeat ih.
        AllButLast-cons _ (sent py call server d attempt now left) r.1
          (repeated-MayRepeat _ attempt _ d _ delay repeat) ih;
  }

  -- Of the requests that one call sends, where the request is neither a read nor the create of one
  -- sandbox, all but the last ended in a `URLError` for an address that is not found, a refused
  -- connection or an unreached network or host; or in an answer that asks to come back and whose code is
  -- a refusal that belongs to the request's method and path, or any such answer where the request
  -- deletes a group.
  pub run-MayRepeat :
      (server : ℕ → Exchange) (fuel now : ℕ)
      → AllButLast
          (λ s. MayRepeat py call.method call.path s.exchange.outcome)
          (run py call server fuel now).1
  unfolding run
  run-MayRepeat server fuel now = loop_rule py call server _ _ (repeats server _) fuel 0 now
