-- ===== src/Spec/Agent.antt =====
-- The contract of a managed agent's sandbox, and the metadata of its rollout
-- (src/ucloud_sandboxes_sdk/_agent_contract.py; relay.py, `_agent_rollout_metadata`).
use ucloud_sandboxes_sdk.Prelude.{
  ℕ, suc, String, Bool, true, false, not, Option, none, some, List, [], ◌∷◌, ◌==◌, ◌&&◌, ◌||◌, ℤ,
  pos, at_least, is_empty, leb, if◌then◌else◌, ◌≡◌, refl, arith, subst, inl, inr, Bool-cases,
}
use ucloud_sandboxes_sdk.Json.{
  Json, Fields, null, bool, int, str, obj, end, field, get, dict, integer, is_true, is_null,
}
use ucloud_sandboxes_sdk.Errors.{
  plain, Exception, api_error, value_error, assertion_error, unreachable, invalid_argument, Result,
  ok, err, ◌>>=◌, require,
}
use ucloud_sandboxes_sdk.Relay.Values.{same_json}
use ucloud_sandboxes_sdk.Spec.Sandbox.{Spec, spec_to_dict, spec_fields, later_fields}

abbrev bad_agent : Exception
bad_agent = value_error (invalid_argument "agent sandbox record")

-- `isinstance(generation, int)` and positive.
abbrev pub positive_generation : Json → Bool
positive_generation v = elim (integer v) [ none ↦ false | some i ↦ at_least 1 i ]

-- `require_agent_sandbox_record`.
unfoldable pub require_agent_record : Fields → Bool → Result Exception (Option ℤ)
require_agent_record record_fields require_generation = elim (dict (get record_fields "spec")) [
  | none ↦ if require_generation then err bad_agent else ok none
  | some spec ↦
      if is_true (get spec "parkable") && is_true (get spec "managed_process")
      then if require_generation && not (positive_generation (get record_fields "generation"))
        then err bad_agent
        else ok (integer (get record_fields "generation"))
      else err bad_agent
]

-- `result[key] = value`.
abbrev pub set_key : String → Json → Fields → Fields
set_key k v end = field k v end
set_key k v (field j w fs) =
    let rest = set_key k v fs in if j == k then field j v fs else field j w rest

abbrev bad_metadata {ℓ} : {A : Type ℓ} → Result Exception A
bad_metadata = err (api_error (plain (invalid_argument "agent rollout") null))

-- A field of the metadata, unless another value stands there.
abbrev pub put_metadata : String → Json → Fields → Result Exception Fields
put_metadata key v metadata =
    if is_null (get metadata key) || same_json (get metadata key) v
    then ok (set_key key v metadata)
    else bad_metadata

abbrev pub relay_error : {A : Type 0} → Result Exception A → Result Exception A
relay_error (ok a) = ok a
relay_error (err _) = bad_metadata

-- `_agent_rollout_metadata` of a handle with its id and record.
unfoldable pub agent_rollout_metadata : String → Fields → Fields → Result Exception Fields
unfolding require_agent_record same_json
agent_rollout_metadata sandbox_id record_fields metadata =
    if sandbox_id == "" then bad_metadata else do
      generation ← relay_error (require_agent_record record_fields true)
      fenced ← require generation (assertion_error unreachable)
      managed ← put_metadata "_ucloud_agent_lifecycle" (str "managed-process-v1") metadata
      named ← put_metadata "sandbox_id" (str sandbox_id) managed
      put_metadata "sandbox_generation" (int fenced) named

is_empty-nil : (xs : List String) → is_empty xs ≡ true → xs ≡ []
is_empty-nil [] h = refl
is_empty-nil (x ∷ xs) h = cc

spec_fields-flags :
    (s : Spec)
    → s.parkable ≡ true
    → s.managed_process ≡ true
    → (get (spec_fields s) "parkable" ≡ bool true)
      × (get (spec_fields s) "managed_process" ≡ bool true)
unfolding spec_fields later_fields
spec_fields-flags s parkable managed = elim (Bool-cases (s.network_policy.egress == "direct")) [
  | inl e ↦ (rw (e, parkable) refl, rw (e, parkable, managed) refl)
  | inr e ↦ (rw (e, parkable) refl, rw (e, parkable, managed) refl)
]

agent-accepted :
    (payload : Fields) (generation : ℕ)
    → get payload "parkable" ≡ bool true
    → get payload "managed_process" ≡ bool true
    → require_agent_record
        (field "spec" (obj payload) (field "generation" (int (pos (suc generation))) end))
        true
      ≡ ok (some (pos (suc generation)))
unfolding require_agent_record
agent-accepted payload generation parkable managed =
    let positive : leb 1 (suc generation) ≡ true = ground arith in
    rw (parkable, managed) (rw positive refl)

-- A specification of a managed process whose dict is accepted is of a parkable container without a
-- command of its own, and a record with its dict and a positive generation keeps the contract.
pub spec_to_dict-require_agent :
    (s : Spec) (payload : Fields) (generation : ℕ)
    → spec_to_dict s ≡ ok payload
    → s.managed_process ≡ true
    → (s.parkable ≡ true)
      × (s.command ≡ [])
      × ((s.profile == "container") ≡ true)
      × (require_agent_record
            (field "spec" (obj payload) (field "generation" (int (pos (suc generation))) end))
            true
          ≡ ok (some (pos (suc generation))))
unfolding spec_to_dict
spec_to_dict-require_agent s payload generation h managed =
    let parkable : s.parkable ≡ true = ground arith in
    let bare : is_empty s.command ≡ true = ground arith in
    let container : (s.profile == "container") ≡ true = ground arith in
    let same : spec_fields s ≡ payload = ground arith in
    let (a, b) = spec_fields-flags s parkable managed in
    (
      parkable,
      is_empty-nil s.command bare,
      container,
      agent-accepted payload generation (subst (λ t. get t "parkable" ≡ bool true) same a)
          (subst (λ t. get t "managed_process" ≡ bool true) same b),
    )
