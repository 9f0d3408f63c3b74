-- ===== src/Retry/Delay.antt =====
-- The pauses before a repeated request (src/ucloud_sandboxes_sdk/client.py:
-- `_ucloud_unavailable_retry_delay`, `_retry_after_seconds`, `_connection_retry_delay`).
use ucloud_sandboxes_sdk.Prelude.{
  ℕ, ◌+◌, ◌*◌, ◌/◌, ◌^◌, min, Option, none, some, List, [], ◌∷◌, String, ◌&&◌, pos_part, codes,
  lower, same_codes, leb, if◌then◌else◌,
}
use ucloud_sandboxes_sdk.Runtime.{Runtime}
use ucloud_sandboxes_sdk.Retry.Paths.{is_method, is_path}

abbrev pub second : ℕ
second = 1000000

abbrev pub base_delay : ℕ
base_delay = 250000

-- `next((value for key, value in items if key.lower() == "retry-after"), None)`.
unfoldable pub header : String → List (String × String) → Option String
header name [] = none
header name ((key, value) ∷ rest) =
    if same_codes (lower (codes key)) (codes name) then some value else header name rest

-- `max(0.0, min(60.0, seconds))`.
abbrev within_minute : ℕ → ℕ
within_minute = min (60 * second)

unfoldable pub retry_after : Runtime → List (String × String) → Option ℕ
unfolding header
retry_after py headers = elim (header "retry-after" headers) [
  | none ↦ none
  | some raw ↦ elim (py.float_of raw) [
    | some seconds ↦ some (within_minute (pos_part seconds))
    | none ↦ elim (py.date_delay raw) [
      | none ↦ none
      | some seconds ↦ some (within_minute (pos_part seconds))
    ]
  ]
]

unfoldable pub max_delay : String → String → ℕ
max_delay method path =
    if is_method method "POST" && is_path path "/v1/sandboxes" then 30 * second else 4 * second

unfoldable pub client_backoff : ℕ → String → String → ℕ
unfolding max_delay
client_backoff attempt method path = min (max_delay method path) (base_delay * 2 ^ min attempt 16)

-- `jitter` is below a million.
unfoldable pub retry_delay : Runtime → ℕ → List (String × String) → String → String → ℕ → ℕ
retry_delay py attempt headers method path jitter = elim (retry_after py headers) [
  | some after ↦ min (60 * second) (after + after * jitter / (4 * second))
  | none ↦ client_backoff attempt method path
]

-- `min(max_attempts or 5, 5)`, where None and 0 are false.
abbrev pub attempts_or : ℕ → Option ℕ → ℕ
attempts_or k none = k
attempts_or k (some n) = if leb n 0 then k else n

unfoldable pub connection_retry_delay : ℕ → Option ℕ → Option ℕ
connection_retry_delay attempt max_attempts =
    if leb (min (attempts_or 5 max_attempts) 5) (attempt + 1)
    then none
    else some (min (2 * second) (base_delay * 2 ^ attempt))
