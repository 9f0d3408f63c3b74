-- ===== src/Job.antt =====
-- Managed jobs (src/ucloud_sandboxes_sdk/client.py: `SandboxJobRecord`, `SandboxJobLogChunk`,
-- `job_read_delay`, `JobHandle`).
pub mod Record
pub mod Chunk
pub mod Delay
pub mod Follow
pub mod Wait
