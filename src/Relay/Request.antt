-- ===== src/Relay/Request.antt =====
-- A request that the relay leased to a worker (src/ucloud_sandboxes_sdk/relay.py: `RelayRequest`,
-- `RelayPollResult`, `_leased_request_payload`, `_completion_receipt`).
use ucloud_sandboxes_sdk.Prelude.{
  ℕ, String, Bool, true, false, not, Option, none, some, List, [], ◌∷◌, ◌==◌, ◌&&◌, ◌||◌, ℤ, pos,
  if◌then◌else◌,
}
use ucloud_sandboxes_sdk.Json.{
  Json, Fields, null, str, obj, end, field, get, has, list, truthy, is_true, equals_text, in_texts,
}
use ucloud_sandboxes_sdk.Errors.{
  plain, Exception, api_error, invalid_argument, Result, ok, err, ◌>>=◌, ◌>>◌,
}
use ucloud_sandboxes_sdk.Runtime.{Runtime}
use ucloud_sandboxes_sdk.Job.Record.{to_text, text_or_empty}
use ucloud_sandboxes_sdk.Relay.Values.{
  bad, required_string, validate_registration_token, validate_http_body_size, decode_body,
  string_dict, optional_float, optional_string, optional_int, optional_bool, int_or,
}

pub record Request : Type 0 where
  pub request_id : String
  pub rollout_id : String
  pub registration_token : String
  pub endpoint : String
  pub method : String
  pub headers : List (String × String)
  pub body : Json
  pub body_bytes : List ℕ
  -- times in millionths
  pub created_at : Option ℤ
  pub delivered_at : Option ℤ
  pub first_delivered_at : Option ℤ
  pub lease_id : String
  pub lease_expires_at : Option ℤ
  pub leased_by : Option String
  pub delivery_count : ℤ
  pub sandbox_id : Option String
  pub sandbox_generation : Option ℤ
  pub expires_at : Option ℤ
  pub idempotency_key : Option String
  pub reattachable : Bool
  pub accepted_notified_at : Option ℤ
  pub parked_transport_epoch : Option String

-- `str(value or default)`.
abbrev pub text_or : Runtime → Json → String → String
text_or py v default = if truthy v then to_text py v else default

-- The construction of the record.
unfoldable pub request_of :
    Runtime → Fields → String → String → String → String → Json × List ℕ → Bool → Request
request_of py fs request_id rollout_id token lease_id content reattachable = record {
  request_id = request_id;
  rollout_id = rollout_id;
  registration_token = token;
  endpoint = text_or_empty py (get fs "endpoint");
  method = text_or py (get fs "method") "POST";
  headers = string_dict py (get fs "headers");
  body = content.0;
  body_bytes = content.1;
  created_at = optional_float py (get fs "created_at");
  delivered_at = optional_float py (get fs "delivered_at");
  first_delivered_at = optional_float py (get fs "first_delivered_at");
  lease_id = lease_id;
  lease_expires_at = optional_float py (get fs "lease_expires_at");
  leased_by = optional_string py (get fs "leased_by");
  delivery_count = int_or py (get fs "delivery_count") (pos 0);
  sandbox_id = optional_string py (get fs "sandbox_id");
  sandbox_generation = optional_int py (get fs "sandbox_generation");
  expires_at = optional_float py (get fs "expires_at");
  idempotency_key = optional_string py (get fs "idempotency_key");
  reattachable = reattachable;
  accepted_notified_at = optional_float py (get fs "accepted_notified_at");
  parked_transport_epoch = optional_string py (get fs "parked_transport_epoch");
}

-- `RelayRequest.from_payload`.
unfoldable pub request_from_payload : Runtime → Json → Result Exception Request
unfolding request_of
request_from_payload py (obj fs) = do
  request_id ← required_string fs "request_id"
  rollout_id ← required_string fs "rollout_id"
  token ← required_string fs "registration_token"
  lease_id ← required_string fs "lease_id"
  validate_registration_token token
  content ← decode_body py (get fs "body") (obj fs)
  validate_http_body_size content.1
  reattachable ← optional_bool (get fs "reattachable") false
  ok (request_of py fs request_id rollout_id token lease_id content reattachable)
request_from_payload py payload = bad "request" payload

unfoldable pub requests_of : Runtime → List Json → Result Exception (List Request)
requests_of py [] = ok []
requests_of py (item ∷ items) = do
  r ← request_from_payload py item
  rs ← requests_of py items
  ok (r ∷ rs)

-- `RelayPollResult.from_payload`.
unfoldable pub poll_result : Runtime → Fields → Result Exception (List Request)
unfolding requests_of
poll_result py fs = elim (list (get fs "requests")) [
  | none ↦ bad "requests" (obj fs)
  | some items ↦ requests_of py items
]

-- `_leased_request_payload`.
unfoldable pub leased_request_payload : Request → Result Exception Fields
leased_request_payload r = do
  validate_registration_token r.registration_token
  if r.request_id == "" || r.lease_id == ""
      then err (api_error (plain (invalid_argument "request/lease identity") null))
      else ok (
          field "request_id" (str r.request_id) (
            field "registration_token" (str r.registration_token)
              (field "lease_id" (str r.lease_id) end)))

-- `payload.get("request_id", request.request_id) == request.request_id`.
abbrev pub names_request : Fields → Request → Bool
names_request fs r =
    if has fs "request_id" then equals_text (get fs "request_id") r.request_id else true

-- `_completion_receipt`.
unfoldable pub completion_receipt : Fields → Request → Result Exception Fields
completion_receipt fs r =
    if not (names_request fs r)
    then bad "completion request_id" (obj fs)
    else if has fs "committed" || has fs "delivery_status"
    then if is_true (get fs "ok")
        && is_true (get fs "committed")
        && equals_text (get fs "request_id") r.request_id
        && in_texts (get fs "delivery_status") ("pending" ∷ "released" ∷ [])
      then ok fs
      else bad "durable completion receipt" (obj fs)
    else ok fs
