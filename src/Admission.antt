-- ===== src/Admission.antt =====
-- The budgets of requests that the worker sessions of one client share
-- (src/ucloud_sandboxes_sdk/_relay_admission.py).
pub mod Sync
pub mod Fairness
pub mod Async
pub mod Capacity
