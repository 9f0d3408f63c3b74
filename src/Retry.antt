-- ===== src/Retry.antt =====
-- The transport's retry policy (src/ucloud_sandboxes_sdk/client.py: the `UCLOUD_*` constants,
-- `_should_retry_ucloud_unavailable`, `_ucloud_unavailable_retry_attempts`, `_retry_error`, the
-- delays). Times are in microseconds; `jitter` is `random.random()` in millionths.
pub mod Paths
pub mod Delay
pub mod Policy
pub mod Fences
pub mod Bounds
