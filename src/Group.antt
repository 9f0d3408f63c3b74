-- ===== src/Group.antt =====
-- Creating a group of sandboxes (src/ucloud_sandboxes_sdk/client.py: `SandboxGroupMember`,
-- `SandboxGroupStatus`, `_SandboxGroupCreate`, `SandboxClient.create_sandbox_group`).
pub mod Status
pub mod Create
pub mod Counts
pub mod Records
pub mod Ends
pub mod Rule
pub mod Placed
pub mod Request
