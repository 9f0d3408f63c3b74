-- ===== src/Transport/Decode.antt =====
-- Reading an answer (src/ucloud_sandboxes_sdk/client.py: `_decode_node_json`, `_node_error`,
-- `_sync_node_error`, `_sync_connect_failure`, `_connection_error`, `_retry_budget_exhausted`).
use ucloud_sandboxes_sdk.Prelude.{
  ℕ, String, Bool, true, false, Option, none, some, List, ◌&&◌, ◌==◌, leb, ltb, if◌then◌else◌,
}
use ucloud_sandboxes_sdk.Json.{Json, Fields, end, field, null, str, int, obj}
use ucloud_sandboxes_sdk.Prelude.{pos}
use ucloud_sandboxes_sdk.Errors.{
  ApiError, plain, Exception, api_error, assertion_error, Result, ok, err, request_failed,
  invalid_json, non_object_json, too_large, connection_failed, retry_budget_exhausted, unreachable,
}
use ucloud_sandboxes_sdk.Runtime.{Runtime}

abbrev pub Headers : Type 0
Headers = List (String × String)

unfoldable pub is_success : ℕ → Bool
is_success status = leb 200 status && ltb status 300

abbrev pub error_body : String → Json
error_body raw = obj (field "error" (str raw) end)

abbrev pub status_error : ℕ → Json → Headers → ApiError
status_error status body headers = record (plain (request_failed status body) body) {
  status_code = some status;
  headers = headers;
}

abbrev pub only_object : Json → Result ApiError Fields
only_object (obj fs) = ok fs
only_object other = err (plain non_object_json other)

-- `json.loads(raw) if raw else {}`.
abbrev loads : Runtime → String → Option Json
loads py raw = if raw == "" then some (obj end) else py.json_of raw

unfoldable pub decode_node_json : Runtime → String → ℕ → Headers → Result ApiError Fields
unfolding is_success
decode_node_json py raw status headers = elim (loads py raw) [
  | none ↦
      if is_success status
      then err (record (plain invalid_json (error_body raw)) {
        status_code = some status;
        headers = headers;
      })
      else err (status_error status (error_body raw) headers)
  | some decoded ↦
      if is_success status then only_object decoded else err (status_error status decoded headers)
]

unfoldable pub node_error : Runtime → String → ℕ → Headers → Result Exception ApiError
node_error py raw status headers = elim (decode_node_json py raw status headers) [
  | err e ↦ ok e
  | ok _ ↦ err (assertion_error unreachable)
]

abbrev pub max_json_response : ℕ
max_json_response = 16777216

-- The body of an HTTP error, none where it is past the limit: that is raised at once.
unfoldable pub sync_node_error : Runtime → Option String → ℕ → Headers → Result Exception ApiError
sync_node_error py none status headers = err (
    api_error (record (plain (too_large max_json_response) null) {
      status_code = some status;
      headers = headers;
    }))
sync_node_error py (some raw) status headers = node_error py raw status headers

-- The reason inside a `URLError`, and the other errors of the operating system.
pub data Reason : Type 0 where
  gaierror econnrefused enetunreach ehostunreach other_errno not_os_error : Reason

pub data OsError : Type 0 where
  url_error : Reason → OsError
  other : OsError

unfoldable pub sync_connect_failure : OsError → Bool
sync_connect_failure (url_error gaierror) = true
sync_connect_failure (url_error econnrefused) = true
sync_connect_failure (url_error enetunreach) = true
sync_connect_failure (url_error ehostunreach) = true
sync_connect_failure _ = false

unfoldable pub connection_error : ℕ → ApiError
connection_error attempts = plain (connection_failed attempts) (
    obj (
      field "error_code" (str "client_connection_failed")
        (field "attempts" (int (pos attempts)) end)))

unfoldable pub budget_exhausted : ApiError → ℕ → ApiError
budget_exhausted e attempts = record e {
  message = retry_budget_exhausted e.message attempts;
  os_cause = false;
}
