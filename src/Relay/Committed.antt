-- ===== src/Relay/Committed.antt =====
-- What repeated and forwarded calls of the relay come to (src/ucloud_sandboxes_sdk/relay.py:
-- `RelayWorkerClient.commit_response_bytes_to`, `unregister_rollout`, `forward_to`).
use ucloud_sandboxes_sdk.Prelude.{
  ℕ, ◌<◌, max, String, Bool, true, false, Option, some, List, [], ◌∷◌, length, ◌≡◌, ap, ◌∙◌, arith,
  inl, inr,
}
use ucloud_sandboxes_sdk.Json.{Fields}
use ucloud_sandboxes_sdk.Errors.{ApiError, Exception, Result, ok, Result-cases}
use ucloud_sandboxes_sdk.Runtime.{Runtime}
use ucloud_sandboxes_sdk.Relay.Request.{Request}
use ucloud_sandboxes_sdk.Relay.Registration.{Tokens, registration_token, forget_registration}
use ucloud_sandboxes_sdk.Relay.Commit.{
  repeat_call, Attempts, at_last, repeats, commit_pause, unregister_pause, repeat_call-Attempts,
  commit_response_bytes, unregister_rollout, is_hop_by_hop, Upstream, responded, failed, Committed,
  Forwarded, forwarded_request,
}

-- The headers without those of one connection, in order.
pub data Kept : List (String × String) → List (String × String) → Type 0 where
  none_left : Kept [] []
  drops :
      {key v : String} {headers kept : List (String × String)}
      → is_hop_by_hop key ≡ true
      → Kept headers kept
      → Kept ((key, v) ∷ headers) kept
  keeps :
      {key v : String} {headers kept : List (String × String)}
      → is_hop_by_hop key ≡ false
      → Kept headers kept
      → Kept ((key, v) ∷ headers) ((key, v) ∷ kept)

Attempts-lt :
    {A : Type 0} (send : ℕ → Result Exception A) (pause : ApiError → ℕ → ℕ) {left attempt : ℕ}
    {a : A} {pauses : List ℕ}
    → Attempts send pause left attempt a pauses
    → length pauses < left
Attempts-lt send pause (at_last e) = omega arith
Attempts-lt send pause (repeats e f retry more) = omega (arith, Attempts-lt send pause more)

-- A response that is committed was accepted by the last of at most `attempts` requests with that same
-- response (or one), and each request before that one failed with an error of the relay that is
-- retryable, after which the client paused.
pub commit_response_bytes-Attempts :
    (py : Runtime) (respond : Committed → ℕ → Result Exception Fields) (response : Committed)
    (attempts retry_delay : ℕ) (receipt : Fields) (pauses : List ℕ)
    → commit_response_bytes py respond response attempts retry_delay ≡ (ok receipt, pauses)
    → Attempts (respond response) (commit_pause py retry_delay) (max 1 attempts) 0 receipt pauses
      × (length pauses < max 1 attempts)
unfolding commit_response_bytes
commit_response_bytes-Attempts py respond response attempts retry_delay receipt pauses h =
    let pause = commit_pause py retry_delay in
    let attempted =
      repeat_call-Attempts (respond response) pause (max 1 attempts) 0 receipt pauses h in
    (attempted, Attempts-lt (respond response) pause attempted)

-- A rollout that is unregistered was deleted with its token, by the last of at most three requests, of
-- which the others failed with a retryable error; only then its registration is forgotten.
pub unregister_rollout-forgets :
    (py : Runtime) (send : String → ℕ → Result Exception Fields) (rollout_id : String)
    (given : Option String) (tokens : Tokens) (response : Fields) (after : Tokens)
    → unregister_rollout py send rollout_id given tokens ≡ (ok response, after)
    → (token : String) × (kept : Tokens) × (pauses : List ℕ) × (registration_token rollout_id given
          tokens
        ≡ ok (token, kept))
      × Attempts (send token) (unregister_pause py) 3 0 response pauses
      × (after ≡ forget_registration rollout_id kept)
unfolding unregister_rollout
unregister_rollout-forgets py send rollout_id given tokens response after h =
    elim (Result-cases (registration_token rollout_id given tokens)) [
      | inl (e, refused) ↦ absurd (ground arith)
      | inr (found, known) ↦
          let call = repeat_call (send found.0) (unregister_pause py) 3 0 in
          elim (Result-cases call.0) [
            | inl (e, failed_call) ↦ absurd (ground arith)
            | inr (fields, acknowledged) ↦
                let same : fields ≡ response = ground arith in
                (
                  found.0,
                  found.1,
                  call.1,
                  known,
                  repeat_call-Attempts (send found.0) (unregister_pause py) 3 0 response call.1
                      (ap (λ t. (t, call.1)) (acknowledged ∙ ap ok same)),
                  ground arith,
                )
          ]
    ]

abbrev pub json_headers : List (String × String)
json_headers = ("Content-Type", "application/json") ∷ []

-- A forwarded request is answered by what the upstream answered, without the headers of the
-- connection; by 504 where the upstream ran out of time; or by 502 where it failed otherwise.
pub data Forwards (error_body : Bool → List ℕ) : Upstream → Committed → Type 0 where
  passed :
      (status : ℕ) (headers kept : List (String × String)) (body : List ℕ)
      → Kept headers kept
      → Forwards error_body
          (responded status headers (some body))
          (record { body = body; status = status; headers = kept })
  timed_out :
      Forwards error_body
        (failed true)
        (record { body = error_body true; status = 504; headers = json_headers })
  broke :
      Forwards error_body
        (failed false)
        (record { body = error_body false; status = 502; headers = json_headers })

-- What a forwarding that returns has done.
pub record Forwarding (py : Runtime) (respond : Committed → ℕ → Result Exception Fields)
    (error_body : Bool → List ℕ) (upstream : Forwarded → Upstream) (r : Request) (receipt : Fields)
    (pauses : List ℕ) : Type 0 where
  pub sent_headers : List (String × String)
  pub sent : Kept r.headers sent_headers
  pub response : Committed
  pub answers : Forwards error_body (upstream (forwarded_request r sent_headers)) response
  pub attempted : Attempts (respond response) (commit_pause py 1000000) 60 0 receipt pauses
