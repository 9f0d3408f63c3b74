-- ===== src/Errors.antt =====
-- Exceptions as values (`SandboxApiError` of src/ucloud_sandboxes_sdk/client.py and the built-in
-- exceptions that the modelled code raises). A message is a constructor with the values that the
-- source formats into it.
use ucloud_sandboxes_sdk.Prelude.{
  ℕ, String, ◌≡◌, refl, Bool, true, false, Option, none, some, List, [], ℤ, ◌⊎◌, inl, inr, subst,
  if◌then◌else◌,
}
use ucloud_sandboxes_sdk.Json.{Json, bool, read}

pub data Message : Type 0 where
  -- what a caller passes wrongly
  invalid_argument : String → Message
  -- what an answer lacks
  invalid_answer : String → Message
  request_failed : ℕ → Json → Message
  invalid_json : Message
  non_object_json : Message
  too_large : ℕ → Message
  connection_failed : ℕ → Message
  os_failure : Message
  retry_budget_exhausted : Message → ℕ → Message
  deadline_expired : Message
  timed_out : String → Message
  unreachable : Message

pub record ApiError : Type 0 where
  pub message : Message
  pub status_code : Option ℕ
  pub body : Json
  pub headers : List (String × String)
  -- `isinstance(exc.__cause__, OSError)`
  pub os_cause : Bool

abbrev pub plain : Message → Json → ApiError
plain m b = record { message = m; status_code = none; body = b; headers = []; os_cause = false }

-- `SandboxApiError.retryable`.
unfoldable pub retryable : ApiError → Option Bool
retryable e = elim (read e.body "retryable") [ bool b ↦ some b | _ ↦ none ]

pub data Exception : Type 0 where
  api_error : ApiError → Exception
  value_error type_error timeout_error assertion_error : Message → Exception
  unicode_error : Exception
  -- a missing key of a dict, and an attribute that a value lacks
  key_error attribute_error : String → Exception
  -- an error of the HTTP library that the SDK passes on: of a certificate, or after the connection
  certificate_error transport_error : Exception
  -- `ExecEventHistoryLostError`: the session, the sequence expected and the one received
  history_lost : String → ℕ → ℤ → Exception

pub data Result {ℓ} (E : Type 0) (A : Type ℓ) : Type ℓ where
  ok : A → Result E A
  err : E → Result E A

infixl 5 ◌>>=◌ ◌>>◌
abbrev pub ◌>>=◌ {ℓ κ} :
    {E : Type 0} {A : Type ℓ} {B : Type κ} → Result E A → (A → Result E B) → Result E B
err e >>= next = err e
ok a >>= next = next a

abbrev pub ◌>>◌ {ℓ} : {E : Type 0} {B : Type ℓ} → Result E (Unit {0}) → Result E B → Result E B
m >> k = m >>= λ _. k

-- `if not test: raise e`.
abbrev pub check : {E : Type 0} → Bool → E → Result E (Unit {0})
check true e = ok tt
check false e = err e

-- `if value is None: raise e`.
abbrev pub require {ℓ} : {E : Type 0} {A : Type ℓ} → Option A → E → Result E A
require (some a) e = ok a
require none e = err e

pub >>=-eq-ok {ℓ κ} :
    {E : Type 0} {A : Type ℓ} {B : Type κ} (first : Result E A) (next : A → Result E B) {out : B}
    → (first >>= next) ≡ ok out
    → (mid : A) × (first ≡ ok mid) × (next mid ≡ ok out)
>>=-eq-ok (err e) next h = cc
>>=-eq-ok (ok mid) next h = (mid, refl, h)

pub Result-cases :
    {E A : Type 0} (r : Result E A) → ((e : E) × (r ≡ err e)) ⊎ ((a : A) × (r ≡ ok a))
Result-cases (err e) = inl (e, refl)
Result-cases (ok a) = inr (a, refl)

-- Whatever a fallible computation returns satisfies `P`.
pub record Ensures {ℓ κ} {E : Type 0} {A : Type ℓ} (P : A → Type κ) (m : Result E A)
    : Type (ℓ ⊔ κ) where
  pub at : (a : A) → m ≡ ok a → P a

pub Ensures-bind {ℓ κ ι} :
    {E : Type 0} {A : Type ℓ} {B : Type κ} {P : B → Type ι} (m : Result E A) (f : A → Result E B)
    → ((a : A) → m ≡ ok a → Ensures P (f a))
    → Ensures P (m >>= f)
Ensures-bind (ok a) f h = h a refl
Ensures-bind (err e) f h = record { at = λ a p. cc }

pub Ensures-err {ℓ κ} :
    {E : Type 0} {A : Type ℓ} {P : A → Type κ} (e : E) → Ensures {A = A} P (err e)
Ensures-err e = record { at = λ a p. cc }

pub ok-injective {ℓ} :
    {E : Type 0} {A : Type ℓ} {a b : A} → ◌≡◌ {A = Result E A} (ok a) (ok b) → a ≡ b
ok-injective p = cc

pub Ensures-ok {ℓ κ} :
    {E : Type 0} {A : Type ℓ} {P : A → Type κ} (a : A) → P a → Ensures {E = E} P (ok a)
Ensures-ok {P = P} a h = record { at = λ b p. subst P (ok-injective p) h }

pub Ensures-if {ℓ κ} :
    {E : Type 0} {A : Type ℓ} {P : A → Type κ} (b : Bool) (m n : Result E A)
    → (b ≡ true → Ensures P m)
    → (b ≡ false → Ensures P n)
    → Ensures P (if b then m else n)
Ensures-if true m n f g = f refl
Ensures-if false m n f g = g refl

pub check-ok : {E : Type 0} (b : Bool) (e : E) → {u : Unit {0}} → check b e ≡ ok u → b ≡ true
check-ok true e h = refl
check-ok false e h = cc
