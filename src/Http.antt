-- ===== src/Http.antt =====
-- HTTP connections and the reads of their responses (src/ucloud_sandboxes_sdk/_http.py).
pub mod Read
pub mod Chunks
pub mod Pool
pub mod Reach
pub mod Open
pub mod Once
