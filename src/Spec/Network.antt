-- ===== src/Spec/Network.antt =====
-- The network policy of a sandbox (src/ucloud_sandboxes_sdk/network_policy.py).
use ucloud_sandboxes_sdk.Prelude.{
  ℕ, String, Bool, true, false, Option, none, some, List, [], ◌∷◌, ◌==◌, eq_iff, ◌&&◌, ◌||◌, codes,
  length, all, leb, eqb, if◌then◌else◌, ◌≡◌, refl, subst, arith, inl, inr, Bool-cases,
}
use ucloud_sandboxes_sdk.Json.{Json, Fields, null, str, obj, end, field, get, has, equals_text}
use ucloud_sandboxes_sdk.Errors.{Exception, value_error, invalid_argument, Result, ok, err}

pub record Policy : Type 0 where
  pub egress : String
  pub relay : Option String

abbrev pub is_lower : ℕ → Bool
is_lower c = leb b'a' c && leb c b'z'

abbrev pub is_name_code : ℕ → Bool
is_name_code c = is_lower c || (leb b'0' c && leb c b'9') || eqb c b'-'

-- `RELAY_NAME.fullmatch(name)`.
abbrev pub is_relay_codes : List ℕ → Bool
is_relay_codes [] = false
is_relay_codes (c ∷ s) = is_lower c && all is_name_code s && leb (length s) 31

abbrev pub is_relay_name : String → Bool
is_relay_name name = is_relay_codes (codes name)

abbrev bad_policy : Result Exception Policy
bad_policy = err (value_error (invalid_argument "network_policy"))

-- `__post_init__` of the egress "relay", and of "direct".
abbrev pub relay_policy : Json → Result Exception Policy
relay_policy (str name) =
    if is_relay_name name then ok (record { egress = "relay"; relay = some name }) else bad_policy
relay_policy _ = bad_policy

abbrev pub direct_policy : Json → Result Exception Policy
direct_policy null = ok (record { egress = "direct"; relay = none })
direct_policy _ = bad_policy

-- `SandboxNetworkPolicy(egress=egress, relay=relay)`.
unfoldable pub make_policy : Json → Json → Result Exception Policy
make_policy egress relay =
    if equals_text egress "relay"
    then relay_policy relay
    else if equals_text egress "direct"
    then direct_policy relay
    else bad_policy

abbrev pub only_policy_keys : Fields → Bool
only_policy_keys end = true
only_policy_keys (field k v fs) = (k == "egress" || k == "relay") && only_policy_keys fs

-- `raw.get("egress", "direct")`.
abbrev pub egress_of : Fields → Json
egress_of fs = if has fs "egress" then get fs "egress" else str "direct"

-- `from_dict`.
unfoldable pub policy_from_dict : Json → Result Exception Policy
policy_from_dict (obj fs) =
    if only_policy_keys fs then make_policy (egress_of fs) (get fs "relay") else bad_policy
policy_from_dict _ = bad_policy

-- `self.relay if self.relay`.
abbrev pub named_relay : Option String → Fields
named_relay none = end
named_relay (some name) = if name == "" then end else field "relay" (str name) end

-- `to_dict`.
unfoldable pub policy_to_dict : Policy → Fields
policy_to_dict p = field "egress" (str p.egress) (named_relay p.relay)

-- `relay_only`.
unfoldable pub relay_only : String → Result Exception Policy
relay_only name = make_policy (str "relay") (str name)

-- A policy that the constructor accepts: direct, or through a relay with a valid name.
pub data IsPolicy : Policy → Type 0 where
  direct : IsPolicy (record { egress = "direct"; relay = none })
  through :
      (name : String)
      → is_relay_name name ≡ true
      → IsPolicy (record { egress = "relay"; relay = some name })

relay_policy-IsPolicy : (relay : Json) (p : Policy) → relay_policy relay ≡ ok p → IsPolicy p
relay_policy-IsPolicy (str name) p h = elim (Bool-cases (is_relay_name name)) [
  | inl valid ↦ subst IsPolicy (ground arith) (through name valid)
  | inr refused ↦ absurd (ground arith)
]
relay_policy-IsPolicy relay p h = absurd (ground arith)

direct_policy-IsPolicy : (relay : Json) (p : Policy) → direct_policy relay ≡ ok p → IsPolicy p
direct_policy-IsPolicy null p h = subst IsPolicy (ground arith) direct
direct_policy-IsPolicy relay p h = absurd (ground arith)

make_policy-IsPolicy :
    (egress relay : Json) (p : Policy) → make_policy egress relay ≡ ok p → IsPolicy p
unfolding make_policy
make_policy-IsPolicy egress relay p h = elim (Bool-cases (equals_text egress "relay")) [
  | inl by_relay ↦ relay_policy-IsPolicy relay p (ground arith)
  | inr other ↦ elim (Bool-cases (equals_text egress "direct")) [
    | inl is_direct ↦ direct_policy-IsPolicy relay p (ground arith)
    | inr neither ↦ absurd (ground arith)
  ]
]

is_relay_name-nonempty : (name : String) → is_relay_name name ≡ true → (name == "") ≡ false
is_relay_name-nonempty name valid = elim (Bool-cases (name == "")) [
  | inr e ↦ e
  | inl e ↦
      let empty : name ≡ "" = (eq_iff name "").0 e in
      let refused : is_relay_name "" ≡ true = subst (λ t. is_relay_name t ≡ true) empty valid in
      absurd (cc)
]

IsPolicy-from_dict : (p : Policy) → IsPolicy p → policy_from_dict (obj (policy_to_dict p)) ≡ ok p
unfolding policy_from_dict policy_to_dict make_policy
IsPolicy-from_dict _ direct = refl
IsPolicy-from_dict _ (through name valid) =
    let nonempty = is_relay_name-nonempty name valid in rw nonempty (rw valid refl)

from_dict-IsPolicy : (raw : Json) (p : Policy) → policy_from_dict raw ≡ ok p → IsPolicy p
unfolding policy_from_dict
from_dict-IsPolicy (obj fs) p h =
    make_policy-IsPolicy (egress_of fs) (get fs "relay") p (ground arith)
from_dict-IsPolicy raw p h = absurd (ground arith)

-- A policy that is read from a dict is direct, or through a relay with a valid name, and is read
-- again from the dict that it is written to.
pub policy_to_dict-from_dict :
    (raw : Json) (p : Policy)
    → policy_from_dict raw ≡ ok p
    → IsPolicy p × (policy_from_dict (obj (policy_to_dict p)) ≡ ok p)
policy_to_dict-from_dict raw p h =
    let valid = from_dict-IsPolicy raw p h in (valid, IsPolicy-from_dict p valid)
