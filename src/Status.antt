-- ===== src/Status.antt =====
-- Compact sandbox statuses (src/ucloud_sandboxes_sdk/client.py: `_sandbox_status_records`,
-- `_sandbox_record`, `_records`).
pub mod Records
