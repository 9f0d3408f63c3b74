-- ===== src/Transport.antt =====
-- One call of the gateway with its repeats (src/ucloud_sandboxes_sdk/client.py:
-- `SandboxClient._request_json_response`, `_request_bytes`, `_decode_node_json`). The server and the
-- clock are an explicit sequence of exchanges.
pub mod Decode
pub mod Loop
pub mod Rule
pub mod Termination
pub mod Replay
pub mod Requests
pub mod Async
pub mod Twins
