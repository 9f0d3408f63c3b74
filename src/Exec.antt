-- ===== src/Exec.antt =====
-- Exec sessions (src/ucloud_sandboxes_sdk/client.py: `_ExecState`, `ExecHandle`,
-- `_exec_event_payloads`, `_next_exec_sequence`, `_exec_result`).
pub mod State
pub mod Wait
pub mod Order
pub mod Loops
pub mod Ends
