-- ===== src/Archive/Parts.antt =====
-- The components of a container path (src/ucloud_sandboxes_sdk/client.py:
-- `_container_path_parts`). Texts are lists of code points.
use ucloud_sandboxes_sdk.Prelude.{
  ℕ, String, Bool, true, false, not, List, [], ◌∷◌, ◌++◌, ◌&&◌, ◌||◌, any, eqb, leb, same_codes,
  if◌then◌else◌, ◌≡◌,
}
use ucloud_sandboxes_sdk.Errors.{Exception, value_error, invalid_argument, Result, ok, err}

abbrev pub in_first : ℕ → List (List ℕ) → List (List ℕ)
in_first c [] = (c ∷ []) ∷ []
in_first c (p ∷ ps) = (c ∷ p) ∷ ps

-- `text.split("/")`.
abbrev pub split_slash : List ℕ → List (List ℕ)
split_slash [] = [] ∷ []
split_slash (c ∷ s) = let rest = split_slash s in if eqb c b'/' then [] ∷ rest else in_first c rest

-- `"/".join(parts)`.
abbrev pub join_slash : List (List ℕ) → List ℕ
join_slash [] = []
join_slash (p ∷ []) = p
join_slash (p ∷ q ∷ ps) = p ++ b'/' ∷ join_slash (q ∷ ps)

-- `unicodedata.category(char) == "Cc"`.
abbrev pub is_control : ℕ → Bool
is_control c = leb c 31 || (leb 127 c && leb c 159)

abbrev pub is_slash : ℕ → Bool
is_slash c = eqb c b'/'

abbrev pub is_dot_dot : List ℕ → Bool
is_dot_dot p = same_codes p (b'.' ∷ b'.' ∷ [])

-- `part not in ("", ".")`.
abbrev pub is_kept : List ℕ → Bool
is_kept [] = false
is_kept (c ∷ p) = not (same_codes (c ∷ p) (b'.' ∷ []))

abbrev pub kept_parts : List (List ℕ) → List (List ℕ)
kept_parts [] = []
kept_parts (p ∷ ps) = let rest = kept_parts ps in if is_kept p then p ∷ rest else rest

-- `_container_path_parts`.
unfoldable pub container_path_parts : List ℕ → String → Result Exception (List (List ℕ))
container_path_parts path what =
    let parts = kept_parts (split_slash path) in
    if any is_control path
    then err (value_error (invalid_argument what))
    else if any is_dot_dot parts
    then err (value_error (invalid_argument what))
    else ok parts

-- A component that names an entry of a directory: not empty, no `.` or `..`, and without slashes
-- and control characters.
pub record IsPart (p : List ℕ) : Type 0 where
  pub kept : is_kept p ≡ true
  pub no_parent : is_dot_dot p ≡ false
  pub no_slash : any is_slash p ≡ false
  pub no_control : any is_control p ≡ false
