-- ===== src/Retry/Bounds.antt =====
-- How often and how soon a request is repeated (src/ucloud_sandboxes_sdk/client.py).
use native.Mathlib.Nat.{pow-le-pow_right, mul-le-mul_left}
use ucloud_sandboxes_sdk.Prelude.{
  ℕ, ◌+◌, ◌*◌, ◌/◌, ◌≤◌, ◌<◌, min, String, false, Option, some, List, ◌≡◌, arith,
}
use ucloud_sandboxes_sdk.Json.{Json}
use ucloud_sandboxes_sdk.Runtime.{Runtime}
use ucloud_sandboxes_sdk.Retry.Delay.{
  second, base_delay, retry_after, client_backoff, max_delay, retry_delay,
}
use ucloud_sandboxes_sdk.Retry.Policy.{pre_dispatch_fence, stable_create, should_retry}

module _ (status : ℕ) (body : Json) (attempt : ℕ) (method path : String) where
  -- Under a budget of attempts, the last one is not repeated.
  pub budget_spent :
      (budget : ℕ)
      → 0 < budget
      → budget ≤ attempt + 1
      → should_retry status body attempt method path (some budget) ≡ false
  unfolding should_retry
  budget_spent budget p h = ground arith

  -- Without a refusal from before dispatch, and but for a create, the sixth attempt is the last,
  -- whatever the budget.
  pub six_attempts :
      (max_attempts : Option ℕ)
      → pre_dispatch_fence status body method path ≡ false
      → stable_create method path ≡ false
      → 5 ≤ attempt
      → should_retry status body attempt method path max_attempts ≡ false
  unfolding should_retry
  six_attempts max_attempts f c h = ground arith

backoff_bounds :
    (attempt : ℕ) (method path : String)
    → (base_delay ≤ client_backoff attempt method path)
      × (client_backoff attempt method path ≤ max_delay method path)
unfolding client_backoff
backoff_bounds attempt method path =
    ground
      (arith, pow-le-pow_right {n = 2} (omega arith) {i = 0} {j = min attempt 16} (omega arith))

-- The client's own pauses never shrink from one attempt to the next, and stay between a quarter
-- of a second and the limit: 30 seconds for a create, else 4.
pub client_backoff_mono :
    (attempt later : ℕ) (method path : String)
    → attempt ≤ later
    → (base_delay ≤ client_backoff attempt method path)
      × (client_backoff attempt method path ≤ client_backoff later method path)
      × (client_backoff later method path ≤ max_delay method path)
unfolding client_backoff
client_backoff_mono attempt later method path h = omega (
  arith,
  backoff_bounds attempt method path,
  backoff_bounds later method path,
  pow-le-pow_right {n = 2} (omega arith) {i = min attempt 16} {j = min later 16} (omega arith),
)

jitter_bound : (after jitter : ℕ) → jitter < second → 4 * (after * jitter / (4 * second)) ≤ after
jitter_bound after jitter h = grind (arith, mul-le-mul_left {m = jitter} {n = second} after)

pub retry_after-le :
    (py : Runtime) (headers : List (String × String)) (after : ℕ)
    → retry_after py headers ≡ some after
    → after ≤ 60 * second
unfolding retry_after
retry_after-le py headers after h = ground arith

-- Where the answer has a Retry-After the pause is at least that long and at most a quarter longer,
-- and never past a minute. The time read from the header is itself at most a minute.
pub retry_delay-retry_after :
    (py : Runtime) (attempt : ℕ) (headers : List (String × String)) (method path : String)
    (jitter after : ℕ)
    → jitter < second
    → retry_after py headers ≡ some after
    → (after ≤ retry_delay py attempt headers method path jitter)
      × (4 * retry_delay py attempt headers method path jitter ≤ 5 * after)
      × (retry_delay py attempt headers method path jitter ≤ 60 * second)
unfolding retry_delay
retry_delay-retry_after py attempt headers method path jitter after j h =
    ground (arith, retry_after-le py headers after h, jitter_bound after jitter j)
