-- ===== src/Transport/Requests.antt =====
-- The two kinds of call (src/ucloud_sandboxes_sdk/client.py: `_node_request_content`,
-- `SandboxClient._request_json_response`, `_request_bytes`).
use ucloud_sandboxes_sdk.Prelude.{
  ℕ, String, Bool, true, false, Option, none, some, List, [], ltb, ℤ, if◌then◌else◌,
}
use ucloud_sandboxes_sdk.Json.{Fields, null}
use ucloud_sandboxes_sdk.Errors.{
  ApiError, plain, Exception, api_error, type_error, Result, ok, err, too_large, os_failure,
  invalid_argument, ◌>>=◌, ◌>>◌,
}
use ucloud_sandboxes_sdk.Runtime.{Runtime}
use ucloud_sandboxes_sdk.Transport.Decode.{Headers, decode_node_json, max_json_response}
use ucloud_sandboxes_sdk.Transport.Loop.{Call, Exchange, Sent, Ended, raised, run}

-- A body: bytes, of a length, or a stream whose size the caller gives.
pub data Body : Type 0 where
  bytes : ℕ → Body
  stream : Option ℕ → Body

abbrev pub max_json_body : ℕ
max_json_body = 16777216

abbrev pub max_file_body : ℕ
max_file_body = 268435456

abbrev pub known_size : Body → Option ℕ
known_size (bytes n) = some n
known_size (stream size) = size

abbrev pub is_stream : Option Body → Bool
is_stream (some (stream _)) = true
is_stream _ = false

abbrev within : ℕ → ℕ → Result Exception (Unit {0})
within size limit = if ltb limit size then err (api_error (plain (too_large limit) null)) else ok tt

-- The length of the body that is sent, after the checks. `payload` is the length of the JSON
-- payload's bytes, if there is one: it goes before the raw body.
unfoldable pub request_content : Option ℕ → Option Body → Result Exception (Option ℕ)
request_content (some payload) body = do within payload max_json_body; ok (some payload)
request_content none none = ok none
request_content none (some body) = elim (known_size body) [
  | none ↦ err (type_error (invalid_argument "body_size"))
  | some size ↦ do within size max_file_body; ok (some size)
]

abbrev pub Answer : Type 0
Answer = Fields × Headers

abbrev pub from_api {ℓ} : {A : Type ℓ} → Result ApiError A → Result Exception A
from_api (ok a) = ok a
from_api (err e) = err (api_error e)

abbrev pub accept_json : Runtime → ℕ → Headers → String → Result Exception Answer
accept_json py status headers raw = do
  fields ← from_api (decode_node_json py raw status headers)
  ok (fields, headers)

-- `_request_json_response`: the deadline's `TimeoutError` is raised as it is.
unfoldable pub json_call : Runtime → String → String → ℤ → Call Answer
json_call py method path timeout = record {
  method = method;
  path = path;
  timeout = timeout;
  accept = accept_json py;
  limit = max_json_response;
  expired = λ e. e;
}

-- `_request_bytes`: the deadline is checked inside the `try`, and a `TimeoutError` is an `OSError`.
unfoldable pub bytes_call : String → String → ℤ → Call String
bytes_call method path timeout = record {
  method = method;
  path = path;
  timeout = timeout;
  accept = λ status headers raw. ok raw;
  limit = max_file_body;
  expired = λ e. api_error (record (plain os_failure null) { os_cause = true });
}

module _ (py : Runtime) (server : ℕ → Exchange) (fuel now : ℕ) where
  -- A request whose body does not pass the checks is not sent.
  unfoldable pub request_json_response :
      String → String → Option ℕ → Option Body → ℤ → Ended Answer × List Sent
  unfolding json_call
  request_json_response method path payload body timeout = elim (request_content payload body) [
    | err e ↦ (raised e, [])
    | ok _ ↦ run py (json_call py method path timeout) server fuel now
  ]

  unfoldable pub request_bytes : String → String → ℤ → Ended String × List Sent
  unfolding bytes_call
  request_bytes method path timeout = run py (bytes_call method path timeout) server fuel now
