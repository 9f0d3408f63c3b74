-- ===== src/Examples/Retries.antt =====
-- The rules on repeated requests, at concrete requests.
use ucloud_sandboxes_sdk.Prelude.{◌*◌, ◌⊎◌, ◌≤◌, true, false, some, none, ◌≡◌, refl, arith}
use ucloud_sandboxes_sdk.Json.{null}
use ucloud_sandboxes_sdk.Retry.Paths.{is_method, is_path, is_read_method}
use ucloud_sandboxes_sdk.Retry.Delay.{header, retry_after, second, retry_delay}
use ucloud_sandboxes_sdk.Retry.Policy.{
  should_retry, error_code, pre_dispatch_fence, stable_create, attempt_limit, is_last_attempt,
  says_retryable, retry_status,
}
use ucloud_sandboxes_sdk.Retry.Fences.{
  AsksRetry, Refusal, IsGroupDeletion, IsUnsafe, retried-Refusal,
}
use ucloud_sandboxes_sdk.Retry.Bounds.{retry_delay-retry_after}
use ucloud_sandboxes_sdk.Examples.Values.{python, exec_path, busy, after_two_seconds}

exec-IsUnsafe : IsUnsafe "POST" exec_path
unfolding is_read_method is_method is_path stable_create
exec-IsUnsafe = record { no_read = refl; no_create = refl }

busy_retried : should_retry 503 busy 9 "POST" exec_path none ≡ true
unfolding should_retry is_method is_path pre_dispatch_fence stable_create attempt_limit
    is_last_attempt retry_status says_retryable
busy_retried = refl

retried-Refusal_example :
    AsksRetry 503 busy
    × (Refusal "POST" exec_path (error_code busy) ⊎ IsGroupDeletion "POST" exec_path)
retried-Refusal_example =
    retried-Refusal 503 busy 9 "POST" exec_path none exec-IsUnsafe busy_retried

post_is_post : is_method "post" "POST" ≡ true
unfolding is_method
post_is_post = refl

no_fence : pre_dispatch_fence 503 null "GET" "/v1/sandboxes/a" ≡ false
unfolding pre_dispatch_fence says_retryable retry_status
no_fence = refl

no_create : stable_create "GET" "/v1/sandboxes/a" ≡ false
unfolding stable_create is_method
no_create = refl

two_seconds : retry_after python after_two_seconds ≡ some (2 * second)
unfolding retry_after header
two_seconds = refl

retry_delay-retry_after_example :
    let pause = retry_delay python 0 after_two_seconds "GET" exec_path 500000 in
    (2 * second ≤ pause) × (4 * pause ≤ 5 * (2 * second)) × (pause ≤ 60 * second)
retry_delay-retry_after_example =
    retry_delay-retry_after python 0 after_two_seconds "GET" exec_path 500000 (2 * second)
      (omega arith) two_seconds
