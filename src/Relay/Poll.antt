-- ===== src/Relay/Poll.antt =====
-- The checks on a poll's requests and on errors (src/ucloud_sandboxes_sdk/relay.py:
-- `_validate_poll_identity`, `_relay_error_is_retryable`, `_relay_retry_delay`,
-- `_validate_worker_options`, `_poll_client_timeout`).
use ucloud_sandboxes_sdk.Prelude.{
  ℕ, ◌+◌, ◌*◌, ◌-◌, ◌^◌, min, max, String, Bool, true, false, not, Option, none, some, List, [],
  ◌∷◌, map, ◌==◌, eq_iff, ◌&&◌, one_of, All, eqb, leb, is_empty, if◌then◌else◌, ◌≡◌, ◌↔◌, refl,
  arith,
}
use ucloud_sandboxes_sdk.Json.{obj, str, field, end, read, is_dict, equals_text}
use ucloud_sandboxes_sdk.Errors.{
  ApiError, plain, Exception, api_error, value_error, invalid_answer, invalid_argument, retryable,
  Result, ok, err, ◌>>◌, check,
}
use ucloud_sandboxes_sdk.Runtime.{Runtime}
use ucloud_sandboxes_sdk.Retry.Delay.{second, base_delay, retry_after}
use ucloud_sandboxes_sdk.Retry.Policy.{one_of_nat}
use ucloud_sandboxes_sdk.Relay.Request.{Request}

abbrev named : {A : Type 0} → String → Request → Result Exception A
named what r =
    err (api_error (plain (invalid_answer what) (obj (field "request_id" (str r.request_id) end))))

-- The loop of `_validate_poll_identity`, after the requests with the ids `seen`.
unfoldable pub check_identities :
    String → String → List String → List Request → Result Exception (Unit {0})
check_identities rollout_id token seen [] = ok tt
check_identities rollout_id token seen (r ∷ rs) =
    let rest = check_identities rollout_id token (r.request_id ∷ seen) rs in
    if not (r.rollout_id == rollout_id)
    then named "rollout" r
    else if not (r.registration_token == token)
    then named "registration" r
    else if one_of r.request_id seen
    then named "request identity" r
    else rest

-- `_validate_poll_identity`.
unfoldable pub validate_poll_identity : List Request → String → String → Result Exception (Unit {0})
unfolding check_identities
validate_poll_identity rs rollout_id token = check_identities rollout_id token [] rs

-- `_relay_error_is_retryable`.
unfoldable pub relay_error_is_retryable : ApiError → Bool
relay_error_is_retryable e = elim e.status_code [
  | none ↦ elim (retryable e) [ some b ↦ b | none ↦ true ]
  | some status ↦
      if one_of_nat status (400 ∷ 401 ∷ 403 ∷ 404 ∷ 409 ∷ 410 ∷ 422 ∷ [])
      then false
      else elim (retryable e) [
        | some b ↦ b
        | none ↦ one_of_nat status (408 ∷ 425 ∷ 429 ∷ 500 ∷ 502 ∷ 503 ∷ 504 ∷ [])
      ]
]

-- `_relay_request_already_completed`.
unfoldable pub relay_request_already_completed : ApiError → Bool
relay_request_already_completed e = elim e.status_code [
  | none ↦ false
  | some status ↦
      eqb status 410
      && is_dict e.body
      && equals_text (read e.body "error") "request is already completed"
]

-- `_relay_retry_delay`.
unfoldable pub relay_retry_delay : Runtime → ApiError → ℕ → ℕ
relay_retry_delay py e consecutive_errors = elim (retry_after py e.headers) [
  | some after ↦ after
  | none ↦ min (30 * second) (base_delay * 2 ^ (consecutive_errors - 1))
]

-- `_validate_worker_options`: `upstream_base_url.strip()` is an argument.
unfoldable pub validate_worker_options : Bool → Option (List ℕ) → ℕ → Result Exception (Unit {0})
validate_worker_options has_handler stripped_url max_concurrency = elim stripped_url [
  | none ↦ do
    check has_handler (value_error (invalid_argument "handler"))
    check (leb 1 max_concurrency) (value_error (invalid_argument "max_concurrency"))
  | some url ↦ do
    check (not has_handler) (value_error (invalid_argument "handler"))
    check (leb 1 max_concurrency) (value_error (invalid_argument "max_concurrency"))
    check (not (is_empty url)) (value_error (invalid_argument "upstream_base_url"))
]

-- `_poll_client_timeout`.
unfoldable pub poll_client_timeout : ℕ → Option ℕ → Option ℕ
poll_client_timeout default none = none
poll_client_timeout default (some server) = some (max default (server + 5 * second))

-- No id stands twice, nor among those that were seen.
abbrev pub Distinct : List String → List String → Type 0
Distinct seen [] = Unit
Distinct seen (s ∷ ss) = (one_of s seen ≡ false) × Distinct (s ∷ seen) ss

abbrev pub Belongs : String → String → Request → Type 0
Belongs rollout_id token r = (r.rollout_id ≡ rollout_id) × (r.registration_token ≡ token)

check_identities_sound :
    (rollout_id token : String) (seen : List String) (rs : List Request)
    → check_identities rollout_id token seen rs ≡ ok tt
    → All (Belongs rollout_id token) rs × Distinct seen (map (λ r. r.request_id) rs)
unfolding check_identities
check_identities_sound rollout_id token seen [] h = (tt, tt)
check_identities_sound rollout_id token seen (r ∷ rs) h =
    let (all, distinct) =
      check_identities_sound rollout_id token (r.request_id ∷ seen) rs (ground arith) in
    (
      (
        (
          ground (arith, eq_iff r.rollout_id rollout_id),
          ground (arith, eq_iff r.registration_token token),
        ),
        all,
      ),
      (ground arith, distinct),
    )

check_identities_complete :
    (rollout_id token : String) (seen : List String) (rs : List Request)
    → All (Belongs rollout_id token) rs
    → Distinct seen (map (λ r. r.request_id) rs)
    → check_identities rollout_id token seen rs ≡ ok tt
unfolding check_identities
check_identities_complete rollout_id token seen [] all distinct = refl
check_identities_complete rollout_id token seen (r ∷ rs) ((rollout, tok), all) (fresh, distinct) =
    let rest = check_identities_complete rollout_id token (r.request_id ∷ seen) rs all distinct in
    rw
      ((eq_iff r.rollout_id rollout_id).1 rollout, (eq_iff r.registration_token token).1 tok, fresh)
      rest

-- A poll's requests are accepted exactly when all of them are of the rollout and the registration
-- that were polled and no request identity stands twice.
pub validate_poll_identity_iff :
    (rs : List Request) (rollout_id token : String)
    → (validate_poll_identity rs rollout_id token ≡ ok tt)
      ↔ (All (Belongs rollout_id token) rs × Distinct [] (map (λ r. r.request_id) rs))
unfolding validate_poll_identity
validate_poll_identity_iff rs rollout_id token = (
  check_identities_sound rollout_id token [] rs,
  λ (all, distinct). check_identities_complete rollout_id token [] rs all distinct,
)
