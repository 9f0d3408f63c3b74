-- ===== src/Relay/Calls.antt =====
-- The requests of the relay's client (src/ucloud_sandboxes_sdk/relay.py:
-- `RelayWorkerClient._request_json`, `_decode_relay_json` and the payloads).
use ucloud_sandboxes_sdk.Prelude.{
  ℕ, String, Bool, true, not, Option, none, some, List, [], ◌∷◌, ◌==◌, ◌&&◌, ◌||◌, pos, ltb,
  if◌then◌else◌, ◌≡◌, arith,
}
use ucloud_sandboxes_sdk.Json.{
  Json, Fields, null, get, list, int, str, obj, end, field, has, equals_text,
}
use ucloud_sandboxes_sdk.Errors.{
  ApiError, plain, Exception, api_error, unicode_error, invalid_argument, non_object_json,
  invalid_json, os_failure, too_large, Result, ok, err, ◌>>=◌, ◌>>◌,
}
use ucloud_sandboxes_sdk.Runtime.{Runtime}
use ucloud_sandboxes_sdk.Transport.Decode.{Headers, is_success, error_body, status_error}
use ucloud_sandboxes_sdk.Relay.Values.{validate_http_body_size}
use ucloud_sandboxes_sdk.Relay.Request.{Request, leased_request_payload}
use ucloud_sandboxes_sdk.Relay.Renewal.{with_key, with_optional}

abbrev pub max_relay_json : ℕ
max_relay_json = 33554432

-- `json.loads(raw) if raw else {}`.
abbrev pub loaded : Runtime → String → Option Json
loaded py raw = if raw == "" then some (obj end) else py.json_of raw

abbrev pub located : ApiError → ℕ → Headers → ApiError
located e status headers = record e { status_code = some status; headers = headers }

abbrev pub relay_object : Json → ℕ → Headers → Result Exception Fields
relay_object (obj fs) status headers = ok fs
relay_object other status headers =
    err (api_error (located (plain non_object_json other) status headers))

-- `_decode_relay_json`.
unfoldable pub decode_relay_json : Runtime → String → ℕ → Headers → Result Exception Fields
decode_relay_json py raw status headers = elim (loaded py raw) [
  | none ↦
      if is_success status
      then err (api_error (located (plain invalid_json (error_body raw)) status headers))
      else err (api_error (status_error status (error_body raw) headers))
  | some decoded ↦
      if is_success status
      then relay_object decoded status headers
      else err (api_error (status_error status decoded headers))
]

-- What the one opening of the connection comes to. A body past the limit is none.
pub data RelayOutcome : Type 0 where
  answered : ℕ → Headers → Option String → RelayOutcome
  -- an answer that is no UTF-8
  undecodable : RelayOutcome
  http_error : ℕ → Headers → Option String → RelayOutcome
  os_error : RelayOutcome

abbrev pub relay_too_large : ℕ → Headers → ApiError
relay_too_large status headers = located (plain (too_large max_relay_json) null) status headers

unfoldable pub after_relay : Runtime → RelayOutcome → Result Exception Fields
after_relay py (answered status headers none) = err (api_error (relay_too_large status headers))
after_relay py (answered status headers (some raw)) = decode_relay_json py raw status headers
after_relay py undecodable = err unicode_error
after_relay py (http_error status headers none) = err (api_error (relay_too_large status headers))
after_relay py (http_error status headers (some raw)) = decode_relay_json py raw status headers
after_relay py os_error = err (api_error (record (plain os_failure null) { os_cause = true }))

-- `RelayWorkerClient._request_json`: `size` is the length of the encoded payload.
unfoldable pub relay_request_json : Runtime → Option ℕ → RelayOutcome → Result Exception Fields
relay_request_json py none outcome = after_relay py outcome
relay_request_json py (some size) outcome =
    if ltb max_relay_json size
    then err (api_error (plain (too_large max_relay_json) null))
    else after_relay py outcome

abbrev pub is_managed : Fields → Bool
is_managed metadata = equals_text (get metadata "_ucloud_agent_lifecycle") "managed-process-v1"

-- `_registration_payload`.
unfoldable pub registration_payload : String → Option Fields → Result Exception Fields
registration_payload rollout_id none = ok (field "rollout_id" (str rollout_id) end)
registration_payload rollout_id (some metadata) =
    if (has metadata "sandbox_id" || has metadata "sandbox_generation") && not (is_managed metadata)
    then err (api_error (plain (invalid_argument "metadata") null))
    else ok (field "rollout_id" (str rollout_id) (field "metadata" (obj metadata) end))

-- `_heartbeat_payload`.
unfoldable pub heartbeat_payload : String → String → String → Option Fields → Fields
heartbeat_payload rollout_id token worker_id metadata = field "rollout_id" (str rollout_id) (
    field "registration_token" (str token) (
      field "worker_id" (str worker_id)
        (elim metadata [ none ↦ end | some given ↦ field "metadata" (obj given) end ])))

-- A body that is sent: bytes, with their base64 text, or another value.
pub data Sendable : Type 0 where
  bytes : (content : List ℕ) → (base64 : String) → Sendable
  value : Json → Sendable

abbrev encoded : String → Json → Json
encoded encoding v = obj (field "encoding" (str encoding) (field "value" v end))

abbrev encoded_body : Sendable → Result Exception Json
encoded_body (bytes content base64) = do
  validate_http_body_size content
  ok (encoded "base64" (str base64))
encoded_body (value v) = ok (encoded "json" v)

abbrev pub header_fields : List (String × String) → Fields
header_fields [] = end
header_fields ((k, v) ∷ headers) = field k (str v) (header_fields headers)

-- `_response_payload`.
unfoldable pub response_payload :
    Request → Sendable → ℕ → Option (List (String × String)) → Result Exception Fields
response_payload r body status headers = do
  sent ← encoded_body body
  payload ← leased_request_payload r
  ok (
      with_optional "headers"
        (elim headers [ none ↦ none | some hs ↦ some (obj (header_fields hs)) ])
        (with_key "body" sent (with_key "status" (int (pos status)) payload)))

-- `_error_payload`.
unfoldable pub error_payload : Request → String → ℕ → Result Exception Fields
error_payload r message status = do
  payload ← leased_request_payload r
  ok (with_key "error" (str message) (with_key "status" (int (pos status)) payload))

abbrev dicts_only : List Json → List Fields
dicts_only [] = []
dicts_only (v ∷ vs) = let rest = dicts_only vs in elim v [ obj fs ↦ fs ∷ rest | _ ↦ rest ]

-- `_rollout_records`.
unfoldable pub rollout_records : Fields → List Fields
rollout_records payload = elim (list (get payload "rollouts")) [
  | none ↦ []
  | some items ↦ dicts_only items
]

decode_relay-ok :
    (py : Runtime) (raw : String) (status : ℕ) (headers : Headers) (fields : Fields)
    → decode_relay_json py raw status headers ≡ ok fields
    → (is_success status ≡ true) × (loaded py raw ≡ some (obj fields))
unfolding decode_relay_json
decode_relay-ok py raw status headers fields h = ground arith

-- What a relay call that returns has read: an object in an answer of a success status.
pub data ReadsObject (py : Runtime) (fields : Fields) : RelayOutcome → Type 0 where
  in_answer :
      (status : ℕ) (headers : Headers) (raw : String)
      → is_success status ≡ true
      → loaded py raw ≡ some (obj fields)
      → ReadsObject py fields (answered status headers (some raw))
  in_error :
      (status : ℕ) (headers : Headers) (raw : String)
      → is_success status ≡ true
      → loaded py raw ≡ some (obj fields)
      → ReadsObject py fields (http_error status headers (some raw))

after_relay-ReadsObject :
    (py : Runtime) (outcome : RelayOutcome) (fields : Fields)
    → after_relay py outcome ≡ ok fields
    → ReadsObject py fields outcome
unfolding after_relay
after_relay-ReadsObject py (answered status headers none) fields h = cc
after_relay-ReadsObject py (answered status headers (some raw)) fields h =
    let (success, read) = decode_relay-ok py raw status headers fields h in
    in_answer status headers raw success read
after_relay-ReadsObject py undecodable fields h = cc
after_relay-ReadsObject py (http_error status headers none) fields h = cc
after_relay-ReadsObject py (http_error status headers (some raw)) fields h =
    let (success, read) = decode_relay-ok py raw status headers fields h in
    in_error status headers raw success read
after_relay-ReadsObject py os_error fields h = cc

-- A call of the relay returns only the object of an answer with a success status.
pub relay_request-ReadsObject :
    (py : Runtime) (size : Option ℕ) (outcome : RelayOutcome) (fields : Fields)
    → relay_request_json py size outcome ≡ ok fields
    → ReadsObject py fields outcome
unfolding relay_request_json
relay_request-ReadsObject py none outcome fields h = after_relay-ReadsObject py outcome fields h
relay_request-ReadsObject py (some size) outcome fields h =
    after_relay-ReadsObject py outcome fields (ground arith)
