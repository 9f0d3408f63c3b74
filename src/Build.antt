-- ===== src/Build.antt =====
-- Waiting for an image build (src/ucloud_sandboxes_sdk/client.py: `_ImageBuildWait`,
-- `SandboxClient.wait_for_image_build`).
pub mod State
pub mod Loop
