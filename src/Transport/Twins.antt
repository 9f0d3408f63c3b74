-- ===== src/Transport/Twins.antt =====
-- The asynchronous client decides as the synchronous one does (src/ucloud_sandboxes_sdk/client.py:
-- `AsyncSandboxClient._request_json_response`, `SandboxClient._request_json_response`).
use ucloud_sandboxes_sdk.Prelude.{
  ℕ, zero, suc, ◌+◌, String, true, false, Option, none, some, List, [], ◌∷◌, map, ℤ, ◌≡◌, ◌⊎◌,
  length, ◌∙◌, refl, sym, ap, subst, arith, inl, inr, Bool-cases, Option-cases,
}
use ucloud_sandboxes_sdk.Errors.{ApiError, Exception, api_error, Result, ok, ◌>>=◌, Result-cases}
use ucloud_sandboxes_sdk.Json.{Fields}
use ucloud_sandboxes_sdk.Runtime.{Runtime}
use ucloud_sandboxes_sdk.Clock.{deadline, required_remaining, request_timeout, can_sleep}
use ucloud_sandboxes_sdk.Retry.Delay.{connection_retry_delay}
use ucloud_sandboxes_sdk.Retry.Policy.{retry_attempts, retry_error}
use ucloud_sandboxes_sdk.Transport.Decode.{
  Headers, OsError, is_success, decode_node_json, sync_node_error, node_error, sync_connect_failure,
  max_json_response,
}
use ucloud_sandboxes_sdk.Transport.Loop.{
  Outcome, undecodable, response_too_large, http_exception, http_error, os_error, Exchange, Sent,
  Ended, returned, raised, out_of_fuel, Verdict, finish, again, Call, after, after_http_error,
  after_os_error, has_attempt, resume, sent, verdict, round, loop, run,
}
use ucloud_sandboxes_sdk.Transport.Requests.{
  Answer, Body, from_api, json_call, request_json_response, request_content,
}
use ucloud_sandboxes_sdk.Transport.Async.{
  AsyncOutcome, connector, certificate, AsyncExchange, AsyncSent, Raw, send_call, after_node_error,
  after_connector, after_async, resume_async, async_verdict, async_round, async_loop, send,
  json_ended, of_result, async_request_json_response,
}

-- The same answer of the server, as each of the two HTTP libraries reports it.
pub data Same : AsyncOutcome → Outcome → Type 0 where
  same_answer :
      (status : ℕ) (headers : Headers) (raw : String)
      → is_success status ≡ true
      → Same (AsyncOutcome.answered status headers (some raw)) (Outcome.answered status headers raw)
  same_error :
      (status : ℕ) (headers : Headers) (raw : String)
      → is_success status ≡ false
      → Same
          (AsyncOutcome.answered status headers (some raw))
          (http_error status headers (some raw))
  too_large_error :
      (status : ℕ) (headers : Headers)
      → is_success status ≡ false
      → Same (AsyncOutcome.answered status headers none) (http_error status headers none)
  no_connection : (e : OsError) → sync_connect_failure e ≡ true → Same connector (os_error e)

-- The outcomes on which the two clients differ: a body of a success that is past the limit (only the
-- asynchronous client tells its status), or that is no UTF-8 (it replaces what it cannot decode), and
-- an error of the connection that is not a failure to connect (it passes on the HTTP library's error).
pub data Differs : AsyncOutcome → Outcome → Type 0 where
  too_large_success :
      (status : ℕ) (headers : Headers)
      → is_success status ≡ true
      → Differs (AsyncOutcome.answered status headers none) response_too_large
  no_utf8 :
      (status : ℕ) (headers : Headers) (raw : String)
      → is_success status ≡ true
      → Differs (AsyncOutcome.answered status headers (some raw)) undecodable
  connection_lost :
      (e : OsError) → sync_connect_failure e ≡ false → Differs AsyncOutcome.other (os_error e)
  bad_response : Differs AsyncOutcome.other http_exception
  bad_certificate :
      (e : OsError) → sync_connect_failure e ≡ false → Differs certificate (os_error e)

-- The two outcomes are of one exchange, which takes as long, with the same jitter and the same pauses.
pub record SameExchange (a : AsyncExchange) (b : Exchange) : Type 0 where
  pub outcome : Same a.outcome b.outcome ⊎ Differs a.outcome b.outcome
  pub took : a.took ≡ b.took
  pub jitter : a.jitter ≡ b.jitter
  pub overslept : a.overslept ≡ b.overslept

-- The exceptions are compared but for their cause.
abbrev pub no_cause : Exception → Exception
no_cause (api_error e) = api_error (record e { os_cause = false })
no_cause e = e

abbrev pub ended_view : {A : Type 0} → Ended A → Ended A
ended_view (returned a) = returned a
ended_view (raised e) = raised (no_cause e)
ended_view out_of_fuel = out_of_fuel

abbrev pub times : List Sent → List AsyncSent
times = map (λ s. (s.at, s.timeout))

data Agrees (py : Runtime) (D : Type 0) : Verdict Raw → Verdict Answer → Type 0 where
  both_again : (delay : ℕ) → Agrees py D (again delay) (again delay)
  both_finish :
      (a : Ended Raw) (b : Ended Answer)
      → ended_view (json_ended py a) ≡ ended_view b
      → Agrees py D (finish a) (finish b)
  both_end : D → (a : Ended Raw) (b : Ended Answer) → Agrees py D (finish a) (finish b)

module _ (py : Runtime) (method path : String) (timeout : ℤ) where
  abbrev sync_call : Call Answer
  sync_call = json_call py method path timeout

  node_error-Agrees :
      (D : Type 0) (e : ApiError) (attempt jitter : ℕ) (d : Option ℕ) (now : ℕ)
      → Agrees py D
          (after_node_error py method path timeout max_json_response e attempt jitter d now)
          (after_http_error py sync_call e attempt jitter d now)
  unfolding after_node_error after_http_error json_call
  node_error-Agrees D e attempt jitter d now =
      elim (Option-cases
        (retry_error py e attempt method path (retry_attempts method path) jitter)) [
          | inl n ↦ rw (n, after_node_error, after_http_error) (both_finish _ _ refl)
          | inr (delay, s) ↦ elim (Bool-cases (can_sleep delay d now)) [
            | inl sleeps ↦ rw (s, sleeps, after_node_error, after_http_error) (both_again delay)
            | inr late ↦ rw (s, late, after_node_error, after_http_error) (both_finish _ _ refl)
          ]
        ]

  connector-Agrees :
      (D : Type 0) (e : OsError) (attempt : ℕ) (d : Option ℕ) (now : ℕ)
      → sync_connect_failure e ≡ true
      → Agrees py D
          (after_connector py method path timeout max_json_response attempt d now)
          (after_os_error py sync_call e attempt d now)
  unfolding after_connector after_os_error json_call
  connector-Agrees D e attempt d now h =
      elim (Option-cases (connection_retry_delay attempt (retry_attempts method path))) [
        | inl n ↦ rw (after_connector, after_os_error, h, n) (both_finish _ _ refl)
        | inr (delay, s) ↦ elim (Bool-cases (can_sleep delay d now)) [
          | inl sleeps ↦ rw (after_connector, after_os_error, h, s, sleeps) (both_again delay)
          | inr late ↦ rw (after_connector, after_os_error, h, s, late) (both_finish _ _ refl)
        ]
      ]

  json_ended-decode :
      (raw : String) (status : ℕ) (headers : Headers) (r : Result ApiError Fields)
      → decode_node_json py raw status headers ≡ r
      → ended_view (json_ended py (returned (raw, status, headers)))
        ≡ ended_view (of_result (from_api r >>= λ fields. ok (fields, headers)))
  json_ended-decode raw status headers r =
      ap (λ r. ended_view (of_result (from_api r >>= λ fields. ok (fields, headers))))

  same_attempts :
      (attempt : ℕ)
      → has_attempt py (send_call py method path timeout max_json_response) attempt
        ≡ has_attempt py sync_call attempt
  unfolding has_attempt json_call
  same_attempts attempt = refl

  Same-Agrees :
      (D : Type 0) (a : AsyncOutcome) (b : Outcome) (attempt jitter : ℕ) (d : Option ℕ) (now : ℕ)
      → Same a b
      → Agrees py D
          (after_async py method path timeout max_json_response a attempt jitter d now)
          (after py sync_call b attempt jitter d now)
  unfolding after_async after json_call sync_node_error
  Same-Agrees D _ _ attempt jitter d now (same_answer status headers raw success) =
      elim (Result-cases (decode_node_json py raw status headers)) [
        | inl (e, h) ↦
            rw (success, h, after) (both_finish _ _ (json_ended-decode raw status headers _ h))
        | inr (fields, h) ↦
            rw (success, h, after) (both_finish _ _ (json_ended-decode raw status headers _ h))
      ]
  Same-Agrees D _ _ attempt jitter d now (same_error status headers raw failed) =
      elim (Result-cases (node_error py raw status headers)) [
        | inl (e, broken) ↦ rw (failed, broken, after) (both_finish _ _ refl)
        | inr (e, error) ↦ rw (failed, error, after) (node_error-Agrees _ e attempt jitter d now)
      ]
  Same-Agrees D _ _ attempt jitter d now (too_large_error status headers failed) =
      rw failed (both_finish _ _ refl)
  Same-Agrees D _ _ attempt jitter d now (no_connection e h) = connector-Agrees _ e attempt d now h

  Differs-Agrees :
      (D : Type 0) (a : AsyncOutcome) (b : Outcome) (attempt jitter : ℕ) (d : Option ℕ) (now : ℕ)
      → Differs a b
      → D
      → Agrees py D
          (after_async py method path timeout max_json_response a attempt jitter d now)
          (after py sync_call b attempt jitter d now)
  unfolding after_async after after_os_error json_call
  Differs-Agrees D _ _ attempt jitter d now (too_large_success status headers success) w =
      both_end w _ _
  Differs-Agrees D _ _ attempt jitter d now (no_utf8 status headers raw success) w =
      rw success (both_end w _ _)
  Differs-Agrees D _ _ attempt jitter d now (connection_lost e h) w =
      rw (after_os_error, h) (both_end w _ _)
  Differs-Agrees D _ _ attempt jitter d now bad_response w = both_end w _ _
  Differs-Agrees D _ _ attempt jitter d now (bad_certificate e h) w =
      rw (after_os_error, h) (both_end w _ _)

  module _ (server : ℕ → AsyncExchange) (sync_server : ℕ → Exchange)
      (same : (k : ℕ) → SameExchange (server k) (sync_server k)) (d : Option ℕ) where
    -- The exchange of an attempt is one on which the clients differ.
    abbrev DiffersAt : ℕ → Type 0
    DiffersAt k = Differs (server k).outcome (sync_server k).outcome

    verdict-Agrees :
        (attempt now : ℕ)
        → Agrees py
            (DiffersAt attempt)
            (async_verdict py method path timeout max_json_response server d attempt now)
            (verdict py sync_call sync_server d attempt now)
    verdict-Agrees attempt now =
        rw ((same attempt).took, (same attempt).jitter)
          (elim (same attempt).outcome [
            | inl alike ↦ Same-Agrees (DiffersAt attempt) _ _ attempt _ d _ alike
            | inr differs ↦ Differs-Agrees (DiffersAt attempt) _ _ attempt _ d _ differs differs
          ])

    abbrev SameRuns : ℕ → Ended Raw × List AsyncSent → Ended Answer × List Sent → Type 0
    SameRuns attempt a b =
        (a.1 ≡ times b.1)
        × ((ended_view (json_ended py a.0) ≡ ended_view b.0)
            ⊎ ((k : ℕ) × (attempt + length a.1 ≡ suc k) × DiffersAt k))

    resume-SameRuns :
        (attempt : ℕ) (v : Verdict Raw) (w : Verdict Answer) (at : AsyncSent) (s : Sent)
        (rest : ℕ → Ended Raw × List AsyncSent) (sync_rest : ℕ → Ended Answer × List Sent)
        → Agrees py (DiffersAt attempt) v w
        → at ≡ (s.at, s.timeout)
        → ((delay : ℕ) → SameRuns (suc attempt) (rest delay) (sync_rest delay))
        → let a = resume_async py method path timeout max_json_response v rest in
          let b = resume py sync_call w sync_rest in SameRuns attempt (a.0, at ∷ a.1) (b.0, s ∷ b.1)
    unfolding resume_async resume
    resume-SameRuns attempt _ _ at s rest sync_rest (both_again delay) e ih =
        let (requests, ends) = ih delay in
        (
          ap (λ t. t ∷ (rest delay).1) e ∙ ap (λ t. (s.at, s.timeout) ∷ t) requests,
          elim ends [
            | inl alike ↦ inl alike
            | inr (k, last, differs) ↦ inr (k, omega (arith, last), differs)
          ],
        )
    resume-SameRuns attempt _ _ at s rest sync_rest (both_finish a b f) e ih =
        (ap (λ t. t ∷ []) e, inl f)
    resume-SameRuns attempt _ _ at s rest sync_rest (both_end differs a b) e ih =
        (ap (λ t. t ∷ []) e, inr (attempt, omega arith, differs))

    round-SameRuns :
        (attempt now : ℕ) (rest : ℕ → Ended Raw × List AsyncSent)
        (sync_rest : ℕ → Ended Answer × List Sent)
        → ((delay : ℕ) → SameRuns (suc attempt) (rest delay) (sync_rest delay))
        → SameRuns attempt
            (async_round py method path timeout max_json_response server d attempt now rest)
            (round py sync_call sync_server d attempt now sync_rest)
    unfolding async_round round json_call
    round-SameRuns attempt now rest sync_rest ih =
        elim (Bool-cases (has_attempt py sync_call attempt)) [
          | inr no_more ↦ rw (async_round, round, same_attempts attempt, no_more) (refl, inl refl)
          | inl more ↦ elim (Result-cases (required_remaining d now)) [
            | inl (e, late) ↦
                rw (async_round, round, same_attempts attempt, more, late) (refl, inl refl)
            | inr (left, early) ↦
                rw (async_round, round, same_attempts attempt, more, early)
                  (resume-SameRuns attempt _ _ (now, request_timeout left timeout)
                    (sent py sync_call sync_server d attempt now left) rest sync_rest
                    (verdict-Agrees attempt now) refl ih)
          ]
        ]

    loop-SameRuns :
        (fuel attempt now : ℕ)
        → SameRuns attempt
            (async_loop py method path timeout max_json_response server d fuel attempt now)
            (loop py sync_call sync_server d fuel attempt now)
    unfolding async_loop loop
    loop-SameRuns zero attempt now = (refl, inl refl)
    loop-SameRuns (suc fuel) attempt now = round-SameRuns attempt now _ _ λ delay.
        let a = server attempt in
        let b = sync_server attempt in
        let at : (now + a.took) + (delay + a.overslept) ≡ (now + b.took) + (delay + b.overslept) =
          omega (arith, (same attempt).took, (same attempt).overslept) in
        subst
          (λ t.
            SameRuns (suc attempt)
              (async_loop py method path timeout max_json_response server d fuel (suc attempt) t)
              (loop py sync_call sync_server d fuel (suc attempt)
                ((now + b.took) + (delay + b.overslept))))
          (sym at) (loop-SameRuns fuel (suc attempt) ((now + b.took) + (delay + b.overslept)))

-- The same requests, and the same end, unless the last exchange is one on which the clients differ.
abbrev pub SameCalls :
    (ℕ → AsyncExchange)
    → (ℕ → Exchange)
    → Ended Answer × List AsyncSent
    → Ended Answer × List Sent
    → Type 0
SameCalls server sync_server a b =
    (a.1 ≡ times b.1)
    × ((ended_view a.0 ≡ ended_view b.0)
        ⊎ ((k : ℕ) × (length a.1 ≡ suc k) × Differs (server k).outcome (sync_server k).outcome))

module _ (py : Runtime) (server : ℕ → AsyncExchange) (sync_server : ℕ → Exchange) where
  -- Where each exchange is answered to both clients alike, or is one of those on which they are known to
  -- differ, they send the same requests at the same times, with the same timeouts; and they return the
  -- same answer or raise the same exception, but for its cause, unless the last exchange is one on which
  -- they differ: a success past the limit or no UTF-8, or an error that is not a failure to connect. A
  -- failure to connect is taken to be one that both count as such.
  pub async_request-sync_request :
      (fuel now : ℕ) (method path : String) (payload : Option ℕ) (body : Option Body) (timeout : ℤ)
      → ((k : ℕ) → SameExchange (server k) (sync_server k))
      → SameCalls server sync_server
          (async_request_json_response py server fuel now method path payload body timeout)
          (request_json_response py sync_server fuel now method path payload body timeout)
  unfolding async_request_json_response request_json_response send run
  async_request-sync_request fuel now method path payload body timeout same =
      elim (Result-cases (request_content payload body)) [
        | inl (e, refused) ↦
            rw (async_request_json_response, request_json_response, refused) (refl, inl refl)
        | inr (size, accepted) ↦
            let (requests, ends) =
              loop-SameRuns py method path timeout server sync_server same
                (deadline (some timeout) now) fuel 0 now in
            rw (async_request_json_response, request_json_response, accepted)
              (
                requests,
                elim ends [
                  | inl alike ↦ inl alike
                  | inr (k, last, differs) ↦ inr (k, omega (arith, last), differs)
                ],
              )
      ]
