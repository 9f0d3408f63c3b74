-- ===== src/Relay/Values.antt =====
-- Readings and comparisons of decoded values in the relay's client
-- (src/ucloud_sandboxes_sdk/relay.py: `_required_string`, `_optional_float` and the like).
use ucloud_sandboxes_sdk.Prelude.{
  ℕ, suc, ◌*◌, ◌-◌, String, Bool, true, false, Option, none, some, List, [], ◌∷◌, ◌==◌, ◌&&◌, ◌||◌,
  ℤ, pos, negsuc, eqb, leb, ltb, codes, length, all, if◌then◌else◌,
}
use ucloud_sandboxes_sdk.Json.{
  Json, Items, Fields, null, bool, int, real, str, arr, obj, nil, cons, end, field, get, has,
  some_text, is_null,
}
use ucloud_sandboxes_sdk.Errors.{
  plain, Exception, api_error, invalid_answer, invalid_argument, Result, ok, err,
}
use ucloud_sandboxes_sdk.Runtime.{Runtime}
use ucloud_sandboxes_sdk.Job.Record.{to_int, to_text}

abbrev pub same_int : ℤ → ℤ → Bool
same_int (pos m) (pos n) = eqb m n
same_int (negsuc m) (negsuc n) = eqb m n
same_int _ _ = false

abbrev pub millionths : ℤ → ℤ
millionths (pos n) = pos (n * 1000000)
millionths (negsuc n) = negsuc (suc n * 1000000 - 1)

-- A number in millionths: True is 1, and 1 is 1.0.
abbrev pub number : Json → Option ℤ
number (bool true) = some (pos 1000000)
number (bool false) = some (pos 0)
number (int i) = some (millionths i)
number (real r) = some r
number _ = none

abbrev pub same_number : Option ℤ → Option ℤ → Bool
same_number (some a) (some b) = same_int a b
same_number _ _ = false

abbrev pub size : Fields → ℕ
size end = 0
size (field k v fs) = suc (size fs)

-- `a == b` of decoded values: dicts are equal whatever their keys' order.
unfoldable mutual
  pub same_json : Json → Json → Bool
  same_json null b = is_null b
  same_json (str s) (str t) = s == t
  same_json (str s) b = false
  same_json (arr xs) (arr ys) = same_items xs ys
  same_json (arr xs) b = false
  same_json (obj fs) (obj gs) = eqb (size fs) (size gs) && same_fields fs gs
  same_json (obj fs) b = false
  same_json (bool x) b = same_number (number (bool x)) (number b)
  same_json (int i) b = same_number (number (int i)) (number b)
  same_json (real r) b = same_number (number (real r)) (number b)

  pub same_items : Items → Items → Bool
  same_items nil nil = true
  same_items (cons x xs) (cons y ys) = same_json x y && same_items xs ys
  same_items _ _ = false

  pub same_fields : Fields → Fields → Bool
  same_fields end gs = true
  same_fields (field k v fs) gs = has gs k && same_json v (get gs k) && same_fields fs gs

abbrev pub same_option {ℓ} : {A : Type ℓ} → (A → A → Bool) → Option A → Option A → Bool
same_option same none none = true
same_option same (some a) (some b) = same a b
same_option same _ _ = false

abbrev pub look {ℓ} : {A : Type ℓ} → String → List (String × A) → Option A
look k [] = none
look k ((j, v) ∷ rest) = if j == k then some v else look k rest

-- `a == b` of dicts of strings.
abbrev pub same_headers : List (String × String) → List (String × String) → Bool
same_headers a b =
    eqb (length a) (length b) && all (λ (k, v). same_option (λ s t. s == t) (some v) (look k b)) a

abbrev pub bad {ℓ} : {A : Type ℓ} → String → Json → Result Exception A
bad what payload = err (api_error (plain (invalid_answer what) payload))

-- `_required_string`.
unfoldable pub required_string : Fields → String → Result Exception String
required_string fs k = elim (some_text (get fs k)) [ none ↦ bad k (obj fs) | some s ↦ ok s ]

abbrev pub is_hex : ℕ → Bool
is_hex c = (leb b'0' c && leb c b'9') || (leb b'a' c && leb c b'f')

abbrev pub is_token : String → Bool
is_token s = eqb (length (codes s)) 32 && all is_hex (codes s)

-- `_validate_registration_token` of a string.
unfoldable pub validate_registration_token : String → Result Exception (Unit {0})
validate_registration_token s =
    if is_token s
    then ok tt
    else err (api_error (plain (invalid_argument "registration_token") null))

abbrev pub max_relay_http_body : ℕ
max_relay_http_body = 16777216

unfoldable pub validate_http_body_size : List ℕ → Result Exception (Unit {0})
validate_http_body_size body =
    if ltb max_relay_http_body (length body)
    then err (api_error (plain (invalid_argument "body") null))
    else ok tt

-- `_optional_float`, in millionths.
unfoldable pub optional_float : Runtime → Json → Option ℤ
optional_float py (str s) = py.float_of s
optional_float py v = number v

unfoldable pub optional_string : Runtime → Json → Option String
optional_string py null = none
optional_string py v = some (to_text py v)

abbrev pub int_or : Runtime → Json → ℤ → ℤ
int_or py v default = elim (to_int py v) [ none ↦ default | some i ↦ i ]

unfoldable pub optional_int : Runtime → Json → Option ℤ
optional_int py null = none
optional_int py v = some (int_or py v (pos 0))

unfoldable pub optional_bool : Json → Bool → Result Exception Bool
optional_bool null default = ok default
optional_bool (bool b) default = ok b
optional_bool _ default = err (api_error (plain (invalid_answer "boolean") null))

abbrev pub texts : Runtime → Fields → List (String × String)
texts py end = []
texts py (field k v fs) = (k, to_text py v) ∷ texts py fs

-- `_string_dict`.
unfoldable pub string_dict : Runtime → Json → List (String × String)
string_dict py (obj fs) = texts py fs
string_dict py _ = []

abbrev pub only_keys : Fields → Bool
only_keys end = true
only_keys (field k v fs) = (k == "encoding" || k == "value") && only_keys fs

-- `_decode_body`: what the body is as a value, and its bytes.
unfoldable pub decode_body : Runtime → Json → Json → Result Exception (Json × List ℕ)
decode_body py (obj fs) payload =
    if has fs "encoding" && has fs "value" && only_keys fs
    then elim (get fs "encoding") [
      | str encoding ↦
          if encoding == "json"
          then elim (py.dumps_of (get fs "value")) [
            | none ↦ bad "JSON body" payload
            | some b ↦ ok b
          ]
          else if encoding == "base64"
          then elim (get fs "value") [
            | str value ↦ elim (py.base64_of value) [
              | none ↦ bad "base64 body" payload
              | some bytes ↦ ok (null, bytes)
            ]
            | _ ↦ bad "body" payload
          ]
          else bad "body" payload
      | _ ↦ bad "body" payload
    ]
    else bad "body" payload
decode_body py _ payload = bad "body" payload
