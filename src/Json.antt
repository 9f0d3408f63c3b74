-- ===== src/Json.antt =====
-- The decoded JSON values that the SDK passes about as `object` and `dict[str, Any]`
-- (src/ucloud_sandboxes_sdk/client.py, relay.py), and the Python operations on them.
use ucloud_sandboxes_sdk.Prelude.{
  ℕ, ◌*◌, String, Bool, true, false, not, Option, none, some, List, [], ◌∷◌, ◌==◌, eqb, ℤ, is_nat,
  is_empty, if◌then◌else◌,
}

-- `real` is a number with a fraction or an exponent, in millionths.
mutual
  pub data Json : Type 0 where
    null : Json
    bool : Bool → Json
    int : ℤ → Json
    real : ℤ → Json
    str : String → Json
    arr : Items → Json
    obj : Fields → Json

  pub data Items : Type 0 where
    nil : Items
    cons : Json → Items → Items

  pub data Fields : Type 0 where
    end : Fields
    field : String → Json → Fields → Fields

abbrev pub to_list : Items → List Json
to_list nil = []
to_list (cons x xs) = x ∷ to_list xs

abbrev pub of_list : List Json → Items
of_list [] = nil
of_list (x ∷ xs) = cons x (of_list xs)

-- `dict.get(key)`; a missing key reads as None, which is `null`.
abbrev pub get : Fields → String → Json
get end k = null
get (field j v fs) k = if j == k then v else get fs k

-- `key in dict`.
abbrev pub has : Fields → String → Bool
has end k = false
has (field j v fs) k = if j == k then true else has fs k

-- `value.get(key) if isinstance(value, dict) else None`.
abbrev pub read : Json → String → Json
read (obj fs) k = get fs k
read _ k = null

abbrev pub is_dict : Json → Bool
is_dict (obj _) = true
is_dict _ = false

-- `value is True`.
abbrev pub is_true : Json → Bool
is_true (bool b) = b
is_true _ = false

abbrev pub is_null : Json → Bool
is_null null = true
is_null _ = false

-- `value == text`, and `value in {texts}`.
abbrev pub equals_text : Json → String → Bool
equals_text (str s) t = s == t
equals_text _ t = false

abbrev pub in_texts : Json → List String → Bool
in_texts v [] = false
in_texts v (t ∷ ts) = if equals_text v t then true else in_texts v ts

-- `value == k` for an int `k`: True is 1, and 1.0 is 1.
abbrev pub equals_nat : Json → ℕ → Bool
equals_nat (int i) k = is_nat i k
equals_nat (bool true) k = eqb 1 k
equals_nat (bool false) k = eqb 0 k
equals_nat (real r) k = is_nat r (k * 1000000)
equals_nat _ k = false

-- A nonempty string.
abbrev pub some_text : Json → Option String
some_text (str s) = if s == "" then none else some s
some_text _ = none

abbrev pub text : Json → Option String
text (str s) = some s
text _ = none

-- `isinstance(value, int) and not isinstance(value, bool)`.
abbrev pub integer : Json → Option ℤ
integer (int i) = some i
integer _ = none

abbrev pub list : Json → Option (List Json)
list (arr xs) = some (to_list xs)
list _ = none

abbrev pub dict : Json → Option Fields
dict (obj fs) = some fs
dict _ = none

-- `bool(value)`.
abbrev pub truthy : Json → Bool
truthy null = false
truthy (bool b) = b
truthy (int i) = not (is_nat i 0)
truthy (real r) = not (is_nat r 0)
truthy (str s) = not (s == "")
truthy (arr xs) = not (is_empty (to_list xs))
truthy (obj end) = false
truthy (obj (field _ _ _)) = true
