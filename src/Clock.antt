-- ===== src/Clock.antt =====
-- Deadlines of a request (src/ucloud_sandboxes_sdk/client.py: `_deadline`, `_remaining_seconds`,
-- `_required_remaining_seconds`, `_request_timeout_seconds`). `now` is a reading of
-- `time.monotonic()`, in microseconds.
use ucloud_sandboxes_sdk.Prelude.{
  ℕ, ◌+◌, ◌-◌, ◌≤◌, ◌≡◌, min, max, Option, none, some, Bool, true, false, ℤ, pos_part, arith, leb,
  if◌then◌else◌,
}
use ucloud_sandboxes_sdk.Errors.{Result, ok, err, Exception, timeout_error, deadline_expired}

unfoldable pub deadline : Option ℤ → ℕ → Option ℕ
deadline none now = none
deadline (some timeout) now = some (now + pos_part timeout)

-- `max(0.0, deadline - now)`, and `-` on ℕ stops at 0.
unfoldable pub remaining : Option ℕ → ℕ → Option ℕ
remaining none now = none
remaining (some d) now = some (d - now)

unfoldable pub required_remaining : Option ℕ → ℕ → Result Exception (Option ℕ)
unfolding remaining
required_remaining d now = elim (remaining d now) [
  | none ↦ ok none
  | some r ↦ if leb r 0 then err (timeout_error deadline_expired) else ok (some r)
]

abbrev pub millisecond : ℕ
millisecond = 1000

unfoldable pub request_timeout : Option ℕ → ℤ → ℕ
request_timeout none default = max millisecond (pos_part default)
request_timeout (some r) default = max millisecond (min (max millisecond (pos_part default)) r)

-- Whether a pause of `delay` ends before the deadline: the test of `_sleep_for_retry`.
unfoldable pub can_sleep : ℕ → Option ℕ → ℕ → Bool
unfolding remaining
can_sleep delay d now = elim (remaining d now) [
  | none ↦ true
  | some r ↦ if leb r delay then false else true
]

-- A pause that `_sleep_for_retry` allows ends before the deadline.
pub can_sleep-lt_deadline :
    (delay d now : ℕ) → can_sleep delay (some d) now ≡ true → now + delay + 1 ≤ d
unfolding can_sleep
can_sleep-lt_deadline delay d now h = ground arith

-- What is left of the request's time bounds the socket timeout, down to a millisecond.
pub request_timeout_bounds :
    (r : ℕ) (default : ℤ)
    → (millisecond ≤ request_timeout (some r) default)
      × (request_timeout (some r) default ≤ max millisecond r)
unfolding request_timeout
request_timeout_bounds r default = ground arith
