-- ===== src/Archive.antt =====
-- Writing many files with one archive (src/ucloud_sandboxes_sdk/client.py: `_file_archive`,
-- `_FileArchive`, `SandboxClient.upload_files`).
pub mod Parts
pub mod Plan
pub mod Slashes
pub mod Sorted
pub mod Files
pub mod Safe
pub mod Extract
pub mod Upload
pub mod Sent
