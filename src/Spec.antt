-- ===== src/Spec.antt =====
-- What a caller asks a sandbox to be (src/ucloud_sandboxes_sdk/client.py: `SandboxSpec`;
-- network_policy.py; _agent_contract.py).
pub mod Network
pub mod Sandbox
pub mod Agent
