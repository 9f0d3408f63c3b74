-- ===== src/Lib.antt =====
-- Verification library for the ucloud-sandboxes-sdk, a Python client of a gateway of sandboxes.
--
-- Parts of the program and the files that model them:
-- - `Json.antt`, `Errors.antt`: decoded JSON values and exceptions as values. A message is a
--   constructor with the values that the source formats into it. Values that Python cannot hash
--   raise in a test `value in {...}`; here the test is false.
-- - `Runtime.antt`: what the Python interpreter reads from texts (numbers, dates, JSON, base64), as
--   parameters. No theorem assumes anything of them.
-- - `Clock.antt` (src/ucloud_sandboxes_sdk/client.py, `_deadline` and its helpers): times are natural
--   numbers of microseconds, and a reading of the clock is an argument.
-- - `Retry` (client.py, `_should_retry_ucloud_unavailable`, `_retry_after_seconds` and the functions
--   around them): which failed requests are repeated, how often and how soon.
-- - `Transport` (client.py, `SandboxClient._request_json_response`, `_request_bytes`): the attempt
--   loops. The connection is a function from the attempt's number to an exchange: what came of it,
--   how long it took, the random jitter, and how much longer than asked the pause after it lasted.
--   `Transport.Async` is the loop of `AsyncSandboxClient._send`, against exchanges of its own.
-- - `Http` (src/ucloud_sandboxes_sdk/_http.py): the pool of idle connections, as functions and as a
--   step relation for several threads and their responses, `open_reusing`, and the reads of
--   responses up to a limit.
-- - `Archive` (client.py, `_file_archive`, `_FileArchive`, `SandboxClient.upload_files`): the checks
--   of the files, the archive that is planned, and its upload with the fallback to single files.
--   Paths, names and contents are lists of codes; the bytes of the archive are a parameter.
-- - `Exec` (client.py, `_ExecState`, `ExecHandle.wait`): the cursor of an exec session, the results
--   of sessions and the loop that waits for one. The reads are a function from the read's number.
-- - `Job` (client.py, `SandboxJobRecord`, `SandboxJobLogChunk`, `job_read_delay`, `JobHandle.follow`,
--   `JobHandle.wait`): job records and log chunks, the pauses between reads, following a log, and
--   waiting for the end of a job.
-- - `Group` (client.py, `SandboxGroupStatus`, `_SandboxGroupCreate`,
--   `SandboxClient.create_sandbox_group`): what the gateway says of a group, the records that are
--   kept, the checks of the request, and the loop that repeats the create. The gateway is a function
--   from the attempt.
-- - `Relay` (src/ucloud_sandboxes_sdk/relay.py): the requests that the relay leases to a worker, the
--   renewals and the receipts, the checks on a poll, and the registrations of `_RelayWorkerState`.
--   `RelayApiError` has the fields of `SandboxApiError` and is the same model type. The equality of
--   decoded values is Python's: numbers by their value, dicts whatever the order of their keys.
--   `Relay.Calls` is one request and the payloads, `Relay.Commit` the repeated requests and the
--   forwarding to an upstream, `Relay.Session` a session from its registration to its end.
-- - `Worker` (relay.py, `_run_sync_worker`, `_handle_sync_request`): the loop of a worker as a step
--   relation, in which the requests that it started end at any time and their callbacks run later,
--   and what it does with one request. A call of the client is what it returns or raises.
-- - `Spec` (client.py, `SandboxSpec`; src/ucloud_sandboxes_sdk/network_policy.py and
--   _agent_contract.py): the specification of a sandbox as a dict, its network policy, and the
--   contract of a managed agent's sandbox.
-- - `Admission` (src/ucloud_sandboxes_sdk/_relay_admission.py): the budgets that the worker sessions
--   of one client share, as step relations. A step is what a thread does while it holds the lock, or
--   a task between two points where it waits, so every interleaving is a sequence of steps.
-- - `Status` (client.py, `_sandbox_status_records`): the checks on compact sandbox statuses.
-- - `Build` (client.py, `_ImageBuildWait`, `SandboxClient.wait_for_image_build`): waiting for an image
--   build, with its repeated polls. The message of its `TimeoutError` names only the build.
-- - `Image` (client.py, `ensure_images`, `wait_for_images`, `image_index_names`,
--   `register_image_recipes`, `submit_image_build`): the images that are asked for by name, in
--   batches, the wait until they are settled, the pages of the index, and the contexts and recipes
--   that are registered; the archive of a context is a parameter. The names are texts; keys and
--   characters that a malformed page would yield are the model's texts.
-- - `Examples`: the theorems at concrete requests, answers and states.
--
-- The transport is used by every other part: its policies decide on each failed request, and what
-- it returns is what the readers of sessions and jobs decode.
--
-- The response that `Http` reads is the answer that an exchange of the transport brings, and each
-- upload of `Archive` is a request of the transport. A worker takes its units from the budget of
-- `Admission`, and answers the requests of `Relay`.
--
-- Loops run on fuel. `Transport.Loop.run`, `Exec.Wait.wait`, `Group.Create.create`,
-- `Job.Wait.job_wait` and `Build.Loop.wait_image_build` have theorems that fuel past the
-- microseconds of their timeout is enough, where every exchange takes at least one. A wait
-- for images takes fuel past the microseconds that are left, and pages take fuel past the rows.
-- Reading in chunks takes fuel past the limit, and `open_reusing` past the idle connections.
-- Following a log has no timeout in the source either, so its theorem is about each
-- number of iterations.
--
-- Not modelled: an error of the connection while the body of an HTTP error is read, the asynchronous
-- handles of the client and the asynchronous worker, TLS and proxies, and the integration with another framework.
pub mod Prelude
pub mod Json
pub mod Errors
pub mod Runtime
pub mod Clock
pub mod Retry
pub mod Transport
pub mod Exec
pub mod Job
pub mod Group
pub mod Admission
pub mod Status
pub mod Http
pub mod Archive
pub mod Build
pub mod Image
pub mod Relay
pub mod Worker
pub mod Spec
pub mod Examples
