-- ===== src/Relay/Renewal.antt =====
-- The renewal of a lease (src/ucloud_sandboxes_sdk/relay.py: `_renew_payload`, `_renewed_request`,
-- `_valid_transport_state_transition`, `_renewal_interval`).
use ucloud_sandboxes_sdk.Prelude.{
  ℕ, ◌*◌, min, String, Bool, true, false, not, Option, none, some, List, [], ◌∷◌, ◌==◌, ◌&&◌, ◌||◌,
  ℤ, pos, negsuc, pos_part, eqb, leb, if◌then◌else◌,
}
use ucloud_sandboxes_sdk.Json.{Json, Fields, str, real, obj, end, field, get, dict}
use ucloud_sandboxes_sdk.Errors.{Exception, value_error, invalid_argument, Result, ok, err, ◌>>=◌}
use ucloud_sandboxes_sdk.Runtime.{Runtime}
use ucloud_sandboxes_sdk.Relay.Values.{bad, same_int, same_json, same_option, same_headers}
use ucloud_sandboxes_sdk.Relay.Request.{Request, request_from_payload, leased_request_payload}

abbrev pub same_text : String → String → Bool
same_text s t = s == t

abbrev pub same_bool : Bool → Bool → Bool
same_bool true b = b
same_bool false b = not b

abbrev pub same_bytes : List ℕ → List ℕ → Bool
same_bytes [] [] = true
same_bytes (a ∷ s) (b ∷ t) = eqb a b && same_bytes s t
same_bytes _ _ = false

-- A dict with a key more.
abbrev pub with_key : String → Json → Fields → Fields
with_key k v end = field k v end
with_key k v (field j w fs) = field j w (with_key k v fs)

abbrev pub with_optional : String → Option Json → Fields → Fields
with_optional k none fs = fs
with_optional k (some v) fs = with_key k v fs

-- `_renew_payload`; the seconds of the lease in millionths.
unfoldable pub renew_payload : Request → Option String → Option ℤ → Result Exception Fields
renew_payload r worker_id lease_seconds = do
  payload ← leased_request_payload r
  ok (
      with_optional "lease_seconds" (elim lease_seconds [ none ↦ none | some s ↦ some (real s) ])
        (with_optional "worker_id" (elim worker_id [ none ↦ none | some w ↦ some (str w) ])
          payload))

-- `a == b` of two requests: what says who and what they are, and the content.
unfoldable pub same_content : Request → Request → Bool
same_content a b =
    a.request_id == b.request_id
    && a.rollout_id == b.rollout_id
    && a.registration_token == b.registration_token
    && a.lease_id == b.lease_id
    && a.endpoint == b.endpoint
    && a.method == b.method
    && same_headers a.headers b.headers
    && same_json a.body b.body
    && same_bytes a.body_bytes b.body_bytes

-- And what the relay records of its delivery.
unfoldable pub same_delivery : Request → Request → Bool
same_delivery a b =
    same_option same_int a.created_at b.created_at
    && same_option same_int a.delivered_at b.delivered_at
    && same_option same_int a.first_delivered_at b.first_delivered_at
    && same_option same_int a.lease_expires_at b.lease_expires_at
    && same_option same_text a.leased_by b.leased_by
    && same_int a.delivery_count b.delivery_count
    && same_option same_text a.sandbox_id b.sandbox_id
    && same_option same_int a.sandbox_generation b.sandbox_generation
    && same_option same_int a.expires_at b.expires_at
    && same_option same_text a.idempotency_key b.idempotency_key
    && same_bool a.reattachable b.reattachable
    && same_option same_int a.accepted_notified_at b.accepted_notified_at
    && same_option same_text a.parked_transport_epoch b.parked_transport_epoch

unfoldable pub same_request : Request → Request → Bool
unfolding same_content same_delivery
same_request a b = same_content a b && same_delivery a b

abbrev pub is_some {ℓ} : {A : Type ℓ} → Option A → Bool
is_some none = false
is_some (some _) = true

-- `_valid_transport_state_transition`.
unfoldable pub valid_transition : Request → Request → Bool
valid_transition previous renewed =
    if previous.reattachable && not renewed.reattachable
    then false
    else if is_some previous.accepted_notified_at
        && not (same_option same_int renewed.accepted_notified_at previous.accepted_notified_at)
    then false
    else if is_some previous.parked_transport_epoch
        && not
            (same_option same_text renewed.parked_transport_epoch previous.parked_transport_epoch)
    then false
    else not (is_some renewed.parked_transport_epoch && not (is_some renewed.accepted_notified_at))

-- `replace(relay_request, ...)`.
unfoldable pub expected_request : Request → Request → Request
expected_request previous renewed = record previous {
  lease_expires_at = renewed.lease_expires_at;
  reattachable = renewed.reattachable;
  accepted_notified_at = renewed.accepted_notified_at;
  parked_transport_epoch = renewed.parked_transport_epoch;
}

-- `_renewed_request`.
unfoldable pub renewed_request : Runtime → Fields → Request → Result Exception Request
unfolding expected_request
renewed_request py response previous = elim (dict (get response "request")) [
  | none ↦ bad "renew payload" (obj response)
  | some fs ↦ do
    renewed ← request_from_payload py (obj fs)
    if valid_transition previous renewed && same_request renewed (expected_request previous renewed)
        then ok renewed
        else bad "renewed request" (obj response)
]

abbrev bad_value {ℓ} : {A : Type ℓ} → String → Result Exception A
bad_value what = err (value_error (invalid_argument what))

abbrev interval_of : ℕ → Option ℤ → ℕ
interval_of lease none = min (3 * 60000000) lease
interval_of lease (some given) = 3 * pos_part given

-- `_renewal_interval`: thirds of a microsecond, so that the third of a lease is exact. The lease
-- and the interval that a caller passes are in microseconds.
unfoldable pub renewal_interval : ℤ → Option ℤ → Result Exception ℕ
renewal_interval (negsuc _) given = bad_value "lease_seconds"
renewal_interval (pos lease) given =
    if leb lease 0
    then bad_value "lease_seconds"
    else let interval = interval_of lease given in
      if leb interval 0 || leb (3 * lease) interval
      then bad_value "renewal_interval_seconds"
      else ok interval
