-- ===== src/Relay.antt =====
-- The relay's worker side (src/ucloud_sandboxes_sdk/relay.py).
pub mod Values
pub mod Request
pub mod Renewal
pub mod Renewed
pub mod Registration
pub mod Poll
pub mod Calls
pub mod Commit
pub mod Committed
pub mod Session
