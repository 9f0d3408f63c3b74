-- ===== src/Relay/Session.antt =====
-- A registered rollout (src/ucloud_sandboxes_sdk/relay.py: `RelaySession`,
-- `RelayWorkerClient.register_rollout`, `_registration_token_from_response`).
use ucloud_sandboxes_sdk.Prelude.{
  ℕ, String, false, Option, none, some, ◌==◌, eq_refl, if◌then◌else◌, ◌≡◌, refl, sym, ap, subst,
  ◌∙◌, arith, inl, inr,
}
use ucloud_sandboxes_sdk.Json.{Fields, obj, get, dict, equals_text, null}
use ucloud_sandboxes_sdk.Errors.{
  plain, Exception, api_error, invalid_argument, Result, ok, err, ◌>>=◌, ◌>>◌, >>=-eq-ok,
  ok-injective, Result-cases,
}
use ucloud_sandboxes_sdk.Runtime.{Runtime}
use ucloud_sandboxes_sdk.Relay.Values.{bad, look, required_string, validate_registration_token}
use ucloud_sandboxes_sdk.Relay.Registration.{
  Tokens, put, registered_token, remember_registration, registration_token, forget_registration,
  look-put, look-forget,
}
use ucloud_sandboxes_sdk.Relay.Commit.{unregister_rollout}
use ucloud_sandboxes_sdk.Relay.Committed.{unregister_rollout-forgets}

pub record Session : Type 0 where
  pub rollout_id : String
  pub token : Option String

abbrev token_of : Fields → Result Exception String
token_of answered = do
  token ← required_string answered "registration_token"
  validate_registration_token token
  ok token

-- `_registration_token_from_response`.
unfoldable pub token_from_response : Fields → String → Result Exception String
token_from_response payload rollout_id = elim (dict (get payload "rollout")) [
  | none ↦ bad "registration" (obj payload)
  | some answered ↦
      if equals_text (get answered "rollout_id") rollout_id
      then token_of answered
      else bad "registration" (obj payload)
]

-- `__enter__`: `register` is what the POST of the registration returns; the session, and the
-- registrations that the client remembers.
unfoldable pub open_session :
    Result Exception Fields → String → Tokens → Result Exception (Session × Tokens)
open_session register rollout_id tokens = do
  response ← register
  remembered ← remember_registration rollout_id response tokens
  token ← token_from_response response rollout_id
  ok (record { rollout_id = rollout_id; token = some token }, remembered)

abbrev closed :
    Session → Result Exception Fields × Tokens → Result Exception (Unit {0}) × Session × Tokens
closed s (ok _, tokens) = (ok tt, record s { token = none }, tokens)
closed s (err e, tokens) = (err e, s, tokens)

-- `close`.
unfoldable pub close_session :
    Runtime
    → (String → ℕ → Result Exception Fields)
    → Session
    → Tokens
    → Result Exception (Unit {0}) × Session × Tokens
close_session py send s tokens = elim s.token [
  | none ↦ (ok tt, s, tokens)
  | some token ↦ closed s (unregister_rollout py send s.rollout_id (some token) tokens)
]

-- `__exit__`: an error of the cleanup is raised unless another one is on its way.
unfoldable pub exit_session : Option Exception → Result Exception (Unit {0}) → Option Exception
exit_session none (ok _) = none
exit_session none (err e) = some e
exit_session (some e) cleanup = some e

-- `_required_registration_token`.
unfoldable pub required_token : Session → Result Exception String
required_token s = elim s.token [
  | none ↦ err (api_error (plain (invalid_argument "session") null))
  | some token ↦ ok token
]

module _ (rollout_id : String) where
  -- Other rollouts keep their registrations.
  abbrev pub KeepsOthers : Tokens → Tokens → Type 0
  KeepsOthers tokens after =
      (other : String) → (rollout_id == other) ≡ false → look other after ≡ look other tokens

  remember-look :
      (payload : Fields) (tokens remembered : Tokens)
      → remember_registration rollout_id payload tokens ≡ ok remembered
      → (token : String) × (registered_token rollout_id payload ≡ ok token)
        × (look rollout_id remembered ≡ some token)
        × KeepsOthers tokens remembered
  unfolding remember_registration
  remember-look payload tokens remembered h =
      let (token, read, _) = >>=-eq-ok (registered_token rollout_id payload) _ h in
      let same : put rollout_id token tokens ≡ remembered = ground arith in
      (
        token,
        read,
        subst (λ r. look rollout_id r ≡ some token) same
            (look-put rollout_id rollout_id token tokens ∙ rw (eq_refl rollout_id) refl),
        λ other differ.
            subst (λ r. look other r ≡ look other tokens) same
              (look-put rollout_id other token tokens ∙ rw differ refl),
      )

  same_token :
      (payload : Fields) (a b : String)
      → registered_token rollout_id payload ≡ ok a
      → token_from_response payload rollout_id ≡ ok b
      → a ≡ b
  unfolding registered_token token_from_response required_string validate_registration_token
  same_token payload a b h k = ground arith

  -- A session that is opened has the token that its client remembers for its rollout.
  open-look :
      (register : Result Exception Fields) (tokens remembered : Tokens) (s : Session)
      → open_session register rollout_id tokens ≡ ok (s, remembered)
      → (token : String) × (s.token ≡ some token)
        × (s.rollout_id ≡ rollout_id)
        × (look rollout_id remembered ≡ some token)
        × KeepsOthers tokens remembered
  unfolding open_session
  open-look register tokens remembered s h =
      let (response, _, h1) = >>=-eq-ok register _ h in
      let (known, remembers, h2) =
        >>=-eq-ok (remember_registration rollout_id response tokens) _ h1 in
      let (token, read, h3) = >>=-eq-ok (token_from_response response rollout_id) _ h2 in
      let (first, from, looked, others) = remember-look response tokens known remembers in
      let same = ok-injective h3 in
      let tables : known ≡ remembered = ap (λ t. t.1) same in
      (
        token,
        sym (ap (λ (t : Session × Tokens). t.0.token) same),
        sym (ap (λ (t : Session × Tokens). t.0.rollout_id) same),
        subst (λ t. look rollout_id t ≡ some token) tables
            (looked ∙ ap some (same_token response first token from read)),
        subst (λ t. KeepsOthers tokens t) tables others,
      )

  -- A given token is remembered for its rollout.
  registration-given :
      (token found : String) (tokens kept : Tokens)
      → registration_token rollout_id (some token) tokens ≡ ok (found, kept)
      → kept ≡ put rollout_id token tokens
  unfolding registration_token
  registration-given token found tokens kept h = ground arith

  forget-others :
      (token : String) (tokens : Tokens)
      → KeepsOthers tokens (forget_registration rollout_id (put rollout_id token tokens))
  forget-others token tokens other differ =
      look-forget rollout_id other (put rollout_id token tokens)
      ∙ rw differ (look-put rollout_id other token tokens ∙ rw differ refl)

  forget-own : (tokens : Tokens) → look rollout_id (forget_registration rollout_id tokens) ≡ none
  forget-own tokens = look-forget rollout_id rollout_id tokens ∙ rw (eq_refl rollout_id) refl

close-look :
    (py : Runtime) (send : String → ℕ → Result Exception Fields) (s after : Session)
    (token : String) (tokens left : Tokens)
    → s.token ≡ some token
    → close_session py send s tokens ≡ (ok tt, after, left)
    → (after.token ≡ none) × (look s.rollout_id left ≡ none) × KeepsOthers s.rollout_id tokens left
unfolding close_session
close-look py send s after token tokens left held h =
    let call = unregister_rollout py send s.rollout_id (some token) tokens in
    elim (Result-cases call.0) [
      | inl (e, failed) ↦ absurd (ground arith)
      | inr (response, done) ↦
          let (found, kept, _, known, _, forgot) =
            unregister_rollout-forgets py send s.rollout_id (some token) tokens response call.1
              (ap (λ t. (t, call.1)) done) in
          let table : left ≡ forget_registration s.rollout_id (put s.rollout_id token tokens) =
            (ground arith)
            ∙ forgot
            ∙ ap (forget_registration s.rollout_id)
                (registration-given s.rollout_id token found tokens kept known) in
          (
            ground arith,
            ap (look s.rollout_id) table ∙ forget-own s.rollout_id (put s.rollout_id token tokens),
            λ other differ.
                ap (look other) table ∙ forget-others s.rollout_id token tokens other differ,
          )
    ]

-- A session that is opened has the token that its client remembers for its rollout; when it is closed,
-- neither has one any more, and through both the client keeps the registrations of other rollouts.
pub open_session-close_session :
    (py : Runtime) (register : Result Exception Fields)
    (send : String → ℕ → Result Exception Fields) (rollout_id : String)
    (tokens remembered left : Tokens) (s after : Session)
    → open_session register rollout_id tokens ≡ ok (s, remembered)
    → close_session py send s remembered ≡ (ok tt, after, left)
    → ((token : String) × (s.token ≡ some token) × (look rollout_id remembered ≡ some token))
      × (after.token ≡ none)
      × (look rollout_id left ≡ none)
      × ((other : String) → (rollout_id == other) ≡ false → look other left ≡ look other tokens)
open_session-close_session py register send rollout_id tokens remembered left s after opens closes =
    let (token, held, own, looked, others) =
      open-look rollout_id register tokens remembered s opens in
    let (gone, forgotten, kept) = close-look py send s after token remembered left held closes in
    let forgot : look rollout_id left ≡ none = subst (λ r. look r left ≡ none) own forgotten in
    let kept_others = subst (λ r. KeepsOthers r remembered left) own kept in
    (
      (token, held, looked),
      gone,
      forgot,
      λ other differ. kept_others other differ ∙ others other differ,
    )
