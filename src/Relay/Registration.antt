-- ===== src/Relay/Registration.antt =====
-- The registrations that a worker's client remembers (src/ucloud_sandboxes_sdk/relay.py:
-- `_RelayWorkerState`).
use ucloud_sandboxes_sdk.Prelude.{
  String, true, false, Option, none, some, List, [], ◌∷◌, ◌==◌, eq_iff, eq_refl, if◌then◌else◌, ◌≡◌,
  refl, subst, arith, Bool-cases, inl, inr, ◌∙◌,
}
use ucloud_sandboxes_sdk.Json.{Fields, obj, get, dict, null}
use ucloud_sandboxes_sdk.Errors.{
  plain, Exception, api_error, invalid_argument, Result, ok, err, ◌>>=◌, ◌>>◌, >>=-eq-ok,
}
use ucloud_sandboxes_sdk.Relay.Values.{
  bad, is_token, look, required_string, validate_registration_token,
}

-- `_registration_tokens`: the rollouts with their tokens.
abbrev pub Tokens : Type 0
Tokens = List (String × String)

abbrev pub put : String → String → Tokens → Tokens
put k v [] = (k, v) ∷ []
put k v ((j, w) ∷ rest) = let tail = put k v rest in if j == k then (j, v) ∷ rest else (j, w) ∷ tail

abbrev valid_token : Fields → Result Exception String
valid_token answered = do
  token ← required_string answered "registration_token"
  validate_registration_token token
  ok token

-- The token that a registration's answer brings for a rollout.
unfoldable pub registered_token : String → Fields → Result Exception String
registered_token rollout_id payload = elim (dict (get payload "rollout")) [
  | none ↦ bad "registration" (obj payload)
  | some answered ↦ do
    response_rollout_id ← required_string answered "rollout_id"
    if response_rollout_id == rollout_id
        then valid_token answered
        else bad "registration rollout_id" (obj payload)
]

-- `_remember_registration`.
unfoldable pub remember_registration : String → Fields → Tokens → Result Exception Tokens
unfolding registered_token
remember_registration rollout_id payload tokens = do
  token ← registered_token rollout_id payload
  ok (put rollout_id token tokens)

abbrev pub or_remembered : Option String → Option String → Option String
or_remembered none remembered = remembered
or_remembered (some token) remembered = some token

abbrev pub keep_given : String → Option String → Tokens → Tokens
keep_given rollout_id none tokens = tokens
keep_given rollout_id (some token) tokens = put rollout_id token tokens

-- `_registration_token`: the token and the registrations after it.
unfoldable pub registration_token :
    String → Option String → Tokens → Result Exception (String × Tokens)
registration_token rollout_id given tokens = elim (or_remembered given (look rollout_id tokens)) [
  | none ↦ err (api_error (plain (invalid_argument "rollout_id") null))
  | some token ↦ do
    validate_registration_token token
    ok (token, keep_given rollout_id given tokens)
]

-- `_forget_registration`.
unfoldable pub forget_registration : String → Tokens → Tokens
forget_registration k [] = []
forget_registration k ((j, w) ∷ rest) =
    let tail = forget_registration k rest in if j == k then tail else (j, w) ∷ tail

pub look-put :
    (j k v : String) (r : Tokens) → look k (put j v r) ≡ (if j == k then some v else look k r)
look-put j k v [] = refl
look-put j k v ((i, w) ∷ rest) = elim (Bool-cases (i == j)) [
  | inl same ↦ ground (arith, eq_iff i k, eq_iff j k, eq_iff i j)
  | inr differ ↦ ground (arith, look-put j k v rest, eq_iff i k, eq_iff j k, eq_iff i j)
]

pub look-forget :
    (j k : String) (r : Tokens)
    → look k (forget_registration j r) ≡ (if j == k then none else look k r)
unfolding forget_registration
look-forget j k [] = ground arith
look-forget j k ((i, w) ∷ rest) = elim (Bool-cases (i == j)) [
  | inl same ↦ ground (arith, look-forget j k rest, eq_iff i k, eq_iff j k, eq_iff i j)
  | inr differ ↦ ground (arith, look-forget j k rest, eq_iff i k, eq_iff j k, eq_iff i j)
]

validate-is_token :
    (token : String) {u : Unit {0}}
    → validate_registration_token token ≡ ok u
    → is_token token ≡ true
unfolding validate_registration_token
validate-is_token token h = ground arith

validate_valid :
    (token : String) → is_token token ≡ true → validate_registration_token token ≡ ok tt
unfolding validate_registration_token
validate_valid token h = ground arith

registered_token-valid :
    (rollout_id : String) (payload : Fields) (token : String)
    → registered_token rollout_id payload ≡ ok token
    → is_token token ≡ true
unfolding registered_token validate_registration_token required_string
registered_token-valid rollout_id payload token h = ground arith

registration_token-found :
    (rollout_id token : String) (r : Tokens)
    → look rollout_id r ≡ some token
    → is_token token ≡ true
    → registration_token rollout_id none r ≡ ok (token, r)
unfolding registration_token
registration_token-found rollout_id token r found valid =
    rw (found, registration_token) (rw (validate_valid token valid) refl)

-- What is remembered of a registration is a token of 32 hexadecimal digits, the token is then given
-- for its rollout, and the other rollouts keep what they had.
pub remember-registration_token :
    (rollout_id : String) (payload : Fields) (tokens remembered : Tokens)
    → remember_registration rollout_id payload tokens ≡ ok remembered
    → (token : String) × (is_token token ≡ true)
      × (registration_token rollout_id none remembered ≡ ok (token, remembered))
      × ((other : String)
          → (rollout_id == other) ≡ false
          → look other remembered ≡ look other tokens)
unfolding remember_registration
remember-registration_token rollout_id payload tokens remembered h =
    let (token, read, same) = >>=-eq-ok (registered_token rollout_id payload) _ h in
    let valid = registered_token-valid rollout_id payload token read in
    let is : put rollout_id token tokens ≡ remembered = ground arith in
    let found : look rollout_id remembered ≡ some token =
      subst (λ r. look rollout_id r ≡ some token) is
        (look-put rollout_id rollout_id token tokens ∙ rw (eq_refl rollout_id) refl) in
    (
      token,
      valid,
      registration_token-found rollout_id token remembered found valid,
      λ other differ.
          subst (λ r. look other r ≡ look other tokens) is
            (look-put rollout_id other token tokens ∙ rw differ refl),
    )

-- A rollout that was forgotten has no token any more, and the other rollouts keep theirs.
pub forget-registration_token :
    (rollout_id other : String) (tokens : Tokens)
    → look other (forget_registration rollout_id tokens)
      ≡ (if rollout_id == other then none else look other tokens)
forget-registration_token rollout_id other tokens = look-forget rollout_id other tokens
