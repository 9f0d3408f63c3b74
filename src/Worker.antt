-- ===== src/Worker.antt =====
-- The worker loop of the relay's client, and what it does with one request
-- (src/ucloud_sandboxes_sdk/relay.py: `_run_sync_worker`, `_handle_sync_request`,
-- `_renew_sync_lease`).
pub mod Handle
pub mod Answered
pub mod Loop
pub mod Budget
pub mod Drain
