-- ===== src/Group/Request.antt =====
-- The request of a group create (src/ucloud_sandboxes_sdk/client.py: `_sandbox_group_id`,
-- `_sandbox_group_payload`). What `spec.to_dict()` comes to is an argument.
use ucloud_sandboxes_sdk.Prelude.{
  ℕ, zero, suc, ◌≤◌, String, Bool, true, false, List, [], ◌∷◌, ◌++◌, ◌==◌, ◌&&◌, ◌||◌, ℤ, pos,
  negsuc, eqb, eqb→eq, leb, codes, length, one_of, All, if◌then◌else◌, ◌≡◌, ◌⊎◌, inl, inr, refl, ap,
  subst, arith, both_true, either_true,
}
use ucloud_sandboxes_sdk.Json.{Json, Fields, str, int, obj, end, field}
use ucloud_sandboxes_sdk.Errors.{
  Exception, value_error, invalid_argument, Result, ok, err, ◌>>=◌, ◌>>◌, check,
}

abbrev pub is_alphanumeric : ℕ → Bool
is_alphanumeric c =
    (leb b'A' c && leb c b'Z') || (leb b'a' c && leb c b'z') || (leb b'0' c && leb c b'9')

-- `[A-Za-z0-9_.-]`.
abbrev pub is_id_code : ℕ → Bool
is_id_code c = is_alphanumeric c || eqb c b'_' || eqb c b'.' || eqb c b'-'

-- What may follow the first character: `[A-Za-z0-9_.-]{0,n}$`, where `$` also stands before a
-- newline at the end.
unfoldable pub rest_matches : ℕ → List ℕ → Bool
rest_matches n [] = true
rest_matches zero (c ∷ []) = eqb c b'\n'
rest_matches zero (c ∷ d ∷ s) = false
rest_matches (suc n) (c ∷ []) = eqb c b'\n' || is_id_code c
rest_matches (suc n) (c ∷ d ∷ s) = is_id_code c && rest_matches n (d ∷ s)

-- `_SANDBOX_GROUP_ID_RE.match(group_id)`.
unfoldable pub is_group_id : List ℕ → Bool
unfolding rest_matches
is_group_id [] = false
is_group_id (c ∷ s) = is_alphanumeric c && rest_matches 58 s

abbrev bad_argument {ℓ} : {A : Type ℓ} → String → Result Exception A
bad_argument what = err (value_error (invalid_argument what))

-- `_sandbox_group_id`.
unfoldable pub sandbox_group_id : Json → Result Exception String
sandbox_group_id (str s) = if is_group_id (codes s) then ok s else bad_argument "group_id"
sandbox_group_id _ = bad_argument "group_id"

abbrev pub is_count : ℤ → Bool
is_count (pos n) = leb 1 n && leb n 512
is_count (negsuc n) = false

abbrev group_count : Json → Result Exception ℤ
group_count (int i) = if is_count i then ok i else bad_argument "count"
group_count _ = bad_argument "count"

abbrev without : String → Fields → Fields
without k end = end
without k (field j v fs) = let rest = without k fs in if j == k then rest else field j v rest

-- `_sandbox_group_payload`.
unfoldable pub sandbox_group_payload :
    Json → Result Exception Fields → Json → String → Result Exception Fields
unfolding sandbox_group_id
sandbox_group_payload group_id template count placement = do
  n ← group_count count
  check (one_of placement ("pack" ∷ "spread" ∷ [])) (value_error (invalid_argument "placement"))
  spec ← template
  id ← sandbox_group_id group_id
  ok (
      field "group_id" (str id) (
        field "count" (int n)
          (field "spec" (obj (without "id" spec)) (field "placement" (str placement) end))))

-- Allowed characters, at most `n`, and after them nothing or one newline.
record IsRest (n : ℕ) (s : List ℕ) : Type 0 where
  chars : List ℕ
  tail : List ℕ
  split : s ≡ chars ++ tail
  allowed : All (λ c. is_id_code c ≡ true) chars
  few : length chars ≤ n
  ended : (tail ≡ []) ⊎ (tail ≡ b'\n' ∷ [])

newline-IsRest : (n c : ℕ) → eqb c b'\n' ≡ true → IsRest n (c ∷ [])
newline-IsRest n c h = record {
  chars = [];
  tail = c ∷ [];
  split = refl;
  allowed = tt;
  few = omega arith;
  ended = inr (ap (λ d. d ∷ []) (eqb→eq c b'\n' h));
}

rest_matches-IsRest : (n : ℕ) (s : List ℕ) → rest_matches n s ≡ true → IsRest n s
unfolding rest_matches
rest_matches-IsRest n [] h = record {
  chars = [];
  tail = [];
  split = refl;
  allowed = tt;
  few = omega arith;
  ended = inl refl;
}
rest_matches-IsRest zero (c ∷ []) h = newline-IsRest zero c h
rest_matches-IsRest zero (c ∷ d ∷ s) h = cc
rest_matches-IsRest (suc n) (c ∷ []) h = elim (either_true (eqb c b'\n') (is_id_code c) h) [
  | inl newline ↦ newline-IsRest (suc n) c newline
  | inr fine ↦ record {
    chars = c ∷ [];
    tail = [];
    split = refl;
    allowed = (fine, tt);
    few = omega arith;
    ended = inl refl;
  }
]
rest_matches-IsRest (suc n) (c ∷ d ∷ s) h =
    let (fine, more) = both_true (is_id_code c) _ h in
    let i = rest_matches-IsRest n (d ∷ s) more in
    record {
      chars = c ∷ i.chars;
      tail = i.tail;
      split = ap (λ l. c ∷ l) i.split;
      allowed = (fine, i.allowed);
      few = omega (arith, i.few);
      ended = i.ended;
    }

-- A group's id as it is accepted: 1 to 59 allowed characters, the first of them a letter or a
-- digit, and after them nothing or one newline.
pub record IsGroupId (s : List ℕ) : Type 0 where
  pub first : ℕ
  pub others : List ℕ
  pub tail : List ℕ
  pub split : s ≡ first ∷ (others ++ tail)
  pub starts : is_alphanumeric first ≡ true
  pub allowed : All (λ c. is_id_code c ≡ true) others
  pub few : length others ≤ 58
  pub ended : (tail ≡ []) ⊎ (tail ≡ b'\n' ∷ [])

is_group_id-IsGroupId : (s : List ℕ) → is_group_id s ≡ true → IsGroupId s
unfolding is_group_id
is_group_id-IsGroupId [] h = cc
is_group_id-IsGroupId (c ∷ s) h =
    let (starts, more) = both_true (is_alphanumeric c) _ h in
    let i = rest_matches-IsRest 58 s more in
    record {
      first = c;
      others = i.chars;
      tail = i.tail;
      split = ap (λ l. c ∷ l) i.split;
      starts = starts;
      allowed = i.allowed;
      few = i.few;
      ended = i.ended;
    }

-- An accepted group id is 1 to 59 characters that are allowed, the first of them a letter or a
-- digit, and after them nothing or one newline.
pub sandbox_group_id-IsGroupId :
    (group_id : Json) (s : String) → sandbox_group_id group_id ≡ ok s → IsGroupId (codes s)
unfolding sandbox_group_id
sandbox_group_id-IsGroupId (str t) s h =
    let e : t ≡ s = ground arith in
    subst (λ x. IsGroupId (codes x)) e (is_group_id-IsGroupId (codes t) (ground arith))
sandbox_group_id-IsGroupId _ s h = cc
