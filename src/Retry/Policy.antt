-- ===== src/Retry/Policy.antt =====
-- Which failed requests are repeated (src/ucloud_sandboxes_sdk/client.py:
-- `_should_retry_ucloud_unavailable`, `_ucloud_unavailable_retry_attempts`, `_retry_error`).
use ucloud_sandboxes_sdk.Prelude.{
  ℕ, ◌-◌, min, String, Bool, true, false, not, Option, none, some, List, [], ◌∷◌, ◌++◌, ◌&&◌, ◌||◌,
  codes, lower, begins, eqb, leb, if◌then◌else◌,
}
use ucloud_sandboxes_sdk.Json.{Json, str, obj, read, is_true, is_dict, in_texts, equals_text}
use ucloud_sandboxes_sdk.Errors.{ApiError}
use ucloud_sandboxes_sdk.Runtime.{Runtime}
use ucloud_sandboxes_sdk.Retry.Paths.{
  is_method, is_read_method, is_path, path_begins, is_one_sandbox, group_path,
}
use ucloud_sandboxes_sdk.Retry.Delay.{attempts_or, retry_delay}

abbrev pub one_of_nat : ℕ → List ℕ → Bool
one_of_nat n [] = false
one_of_nat n (m ∷ ms) = eqb n m || one_of_nat n ms

unfoldable pub retry_status : ℕ → Bool
retry_status status = one_of_nat status (408 ∷ 425 ∷ 429 ∷ 500 ∷ 502 ∷ 503 ∷ 504 ∷ [])

-- `body.get("error_code") if isinstance(body, dict) else None`.
abbrev pub error_code : Json → Json
error_code body = read body "error_code"

-- `isinstance(body, dict) and body.get("retryable") is True`.
unfoldable pub says_retryable : Json → Bool
says_retryable body = is_dict body && is_true (read body "retryable")

abbrev pub image_codes : List String
image_codes = "image_inventory_incomplete" ∷ "managed_registry_digest_protection_unavailable" ∷ []

unfoldable pub image_resolution_fence : Json → String → String → Bool
image_resolution_fence code method path =
    is_method method "POST"
    && (is_path path "/v1/capacity/prepare" || is_path path "/v1/images/pull")
    && in_texts code image_codes

unfoldable pub delete_drain : Json → String → String → Bool
delete_drain code method path =
    is_method method "DELETE"
    && is_one_sandbox path
    && equals_text code "memory_publication_draining"

unfoldable pub group_delete : String → String → Bool
group_delete method path = is_method method "DELETE" && path_begins path "/v1/sandboxes:batch/"

abbrev pub builder_codes : List String
builder_codes = "builder_not_ready" ∷ "builder_busy" ∷ "node_admission_closed" ∷ []

unfoldable pub builder_admission_fence : Json → String → String → Bool
builder_admission_fence code method path =
    is_method method "POST" && is_path path "/v1/images/build" && in_texts code builder_codes

abbrev pub fence_codes : List String
fence_codes =
    "http_request_capacity_exhausted" ∷ "snapshot_publication_pending" ∷ "node_active_exec_deferred"
    ∷ "node_restore_busy" ∷ "node_startup_busy" ∷ "gateway_startup_busy"
    ∷ "wake_destination_unavailable" ∷ "migration_destination_unavailable" ∷ []

unfoldable pub pre_dispatch_fence : ℕ → Json → String → String → Bool
pre_dispatch_fence status body method path =
    retry_status status
    && says_retryable body
    && (in_texts (error_code body) fence_codes
        || image_resolution_fence (error_code body) method path
        || builder_admission_fence (error_code body) method path
        || delete_drain (error_code body) method path
        || group_delete method path)

unfoldable pub stable_create : String → String → Bool
stable_create method path = is_method method "POST" && is_path path "/v1/sandboxes"

-- `max_attempts` for a fence or a create, else at most six (`None or 6` is 6, and so is `0 or 6`).
unfoldable pub attempt_limit : Bool → Option ℕ → Option ℕ
attempt_limit unbounded max_attempts =
    if unbounded then max_attempts else some (min (attempts_or 6 max_attempts) 6)

-- `attempt_limit is not None and attempt >= attempt_limit - 1`.
unfoldable pub is_last_attempt : ℕ → Option ℕ → Bool
is_last_attempt attempt none = false
is_last_attempt attempt (some limit) = leb (limit - 1) attempt

abbrev pub contains : List ℕ → List ℕ → Bool
contains needle [] = begins needle []
contains needle (c ∷ s) = begins needle (c ∷ s) || contains needle s

-- The values of `error`, `message`, `detail` and `upstream_body_preview` that are strings, on
-- lines of their own.
abbrev pub line : Json → List (List ℕ)
line (str s) = codes s ∷ []
line _ = []

abbrev pub join_lines : List (List ℕ) → List ℕ
join_lines [] = []
join_lines (l ∷ []) = l
join_lines (l ∷ m ∷ ls) = l ++ (b'\n' ∷ join_lines (m ∷ ls))

unfoldable pub error_text : Json → List ℕ
error_text (str s) = codes s
error_text (obj fs) = join_lines (
    line (read (obj fs) "error")
    ++ (line (read (obj fs) "message")
        ++ (line (read (obj fs) "detail") ++ line (read (obj fs) "upstream_body_preview"))))
error_text _ = []

-- `"job is unavailable" in text and "ucloud" in text`, of the text in lower case.
unfoldable pub says_job_unavailable : Json → Bool
unfolding error_text
says_job_unavailable body =
    contains (codes "job is unavailable") (lower (error_text body))
    && contains (codes "ucloud") (lower (error_text body))

-- What follows the tests on the fences and on the attempts.
unfoldable pub retry_plain : ℕ → Json → String → String → Bool
retry_plain status body method path =
    if retry_status status
      && says_retryable body
      && (is_read_method method || stable_create method path)
    then true
    else if not (eqb status 503)
    then false
    else if not (is_read_method method || stable_create method path)
    then false
    else says_job_unavailable body

unfoldable pub should_retry : ℕ → Json → ℕ → String → String → Option ℕ → Bool
unfolding attempt_limit is_last_attempt retry_plain
should_retry status body attempt method path max_attempts =
    if is_method method "POST" && is_path path group_path
    then false
    else let fence = pre_dispatch_fence status body method path in
      if is_last_attempt attempt (attempt_limit (fence || stable_create method path) max_attempts)
      then false
      else if fence
      then true
      else retry_plain status body method path

-- The attempts of a request, none where only the deadline bounds them.
unfoldable pub retry_attempts : String → String → Option ℕ
retry_attempts method path =
    if is_method method "POST" && is_path path "/v1/images/build"
    then none
    else if is_method method "POST" && (is_path path "/v1/sandboxes" || is_path path group_path)
    then none
    else if path_begins path "/v1/sandboxes/" || path_begins path "/v1/exec/"
    then none
    else some 6

-- The pause before the next attempt, or none where the error is to be raised.
unfoldable pub retry_error : Runtime → ApiError → ℕ → String → String → Option ℕ → ℕ → Option ℕ
retry_error py e attempt method path max_attempts jitter = elim e.status_code [
  | none ↦ none
  | some status ↦
      if should_retry status e.body attempt method path max_attempts
      then some (retry_delay py attempt e.headers method path jitter)
      else none
]
