-- ===== src/Examples/Relays.antt =====
-- A registration, a poll and a renewal of the relay.
use ucloud_sandboxes_sdk.Prelude.{
  String, some, none, true, false, List, [], ◌∷◌, All, pos, ◌≡◌, ◌↔◌, refl,
}
use ucloud_sandboxes_sdk.Json.{Fields, null, obj, str, int, bool, field, end}
use ucloud_sandboxes_sdk.Errors.{ok}
use ucloud_sandboxes_sdk.Relay.Values.{
  required_string, validate_registration_token, validate_http_body_size, decode_body, string_dict,
  optional_float, optional_string, optional_int, optional_bool, same_json,
}
use ucloud_sandboxes_sdk.Relay.Request.{Request, request_of, request_from_payload}
use ucloud_sandboxes_sdk.Relay.Renewal.{
  same_content, same_delivery, same_request, valid_transition, expected_request, renewed_request,
}
use ucloud_sandboxes_sdk.Relay.Renewed.{Renews, renewed_request-Renews}
use ucloud_sandboxes_sdk.Relay.Poll.{
  validate_poll_identity, Belongs, Distinct, validate_poll_identity_iff,
}
use ucloud_sandboxes_sdk.Relay.Registration.{registered_token, remember_registration}
use ucloud_sandboxes_sdk.Examples.Values.{python}

abbrev pub the_token : String
the_token = "0123456789abcdef0123456789abcdef"

-- A request of rollout "r", with what the relay adds of the worker's transport.
abbrev request_fields : Fields → Fields
request_fields more = field "request_id" (str "q") (
    field "rollout_id" (str "r") (
      field "registration_token" (str the_token) (
        field "lease_id" (str "l")
          (field "body" (obj (field "encoding" (str "json") (field "value" null end))) more))))

abbrev pub leased : Request
leased = record {
  request_id = "q";
  rollout_id = "r";
  registration_token = the_token;
  endpoint = "";
  method = "POST";
  headers = [];
  body = null;
  body_bytes = [];
  created_at = none;
  delivered_at = none;
  first_delivered_at = none;
  lease_id = "l";
  lease_expires_at = some (pos 5000000);
  leased_by = none;
  delivery_count = pos 0;
  sandbox_id = none;
  sandbox_generation = none;
  expires_at = none;
  idempotency_key = none;
  reattachable = false;
  accepted_notified_at = none;
  parked_transport_epoch = none;
}

-- The renewal says that the worker took the request on.
abbrev renewed : Request
renewed = record leased {
  lease_expires_at = some (pos 9000000);
  reattachable = true;
  accepted_notified_at = some (pos 6000000);
}

abbrev renewal : Fields
renewal =
    field "request"
      (obj (
        request_fields (
          field "lease_expires_at" (int (pos 9))
            (field "reattachable" (bool true) (field "accepted_notified_at" (int (pos 6)) end)))))
      end

renews : renewed_request python renewal leased ≡ ok renewed
unfolding renewed_request request_from_payload request_of required_string
    validate_registration_token validate_http_body_size decode_body string_dict optional_float
    optional_string optional_int optional_bool valid_transition expected_request same_request
    same_content same_delivery same_json
renews = refl

renewed_request-Renews_example : Renews leased renewed
renewed_request-Renews_example = renewed_request-Renews python renewal leased renewed renews

abbrev polled : List Request
polled = leased ∷ record renewed { request_id = "p" } ∷ []

validate_poll_identity_iff_example :
    (validate_poll_identity polled "r" the_token ≡ ok tt)
    ↔ (All (Belongs "r" the_token) polled × Distinct [] ("q" ∷ "p" ∷ []))
validate_poll_identity_iff_example = validate_poll_identity_iff polled "r" the_token

abbrev pub registration : Fields
registration =
    field "rollout"
      (obj (field "rollout_id" (str "r") (field "registration_token" (str the_token) end))) end

pub remembers : remember_registration "r" registration [] ≡ ok (("r", the_token) ∷ [])
unfolding remember_registration registered_token required_string validate_registration_token
remembers = refl
