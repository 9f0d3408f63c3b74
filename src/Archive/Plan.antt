-- ===== src/Archive/Plan.antt =====
-- What `upload_files` checks and sends (src/ucloud_sandboxes_sdk/client.py: `_file_archive`,
-- `_FileArchive`, `_bytes_payload`). A name is the text that the source keeps; texts and bytes are
-- lists of codes.
use ucloud_sandboxes_sdk.Prelude.{
  ℕ, zero, suc, ◌+◌, ◌-◌, ◌/◌, ◌%◌, Bool, true, false, not, Option, none, some, List, [], ◌∷◌, ◌++◌,
  ◌&&◌, any, eqb, leb, ltb, ℤ, pos, length, is_empty, same_codes, begins, if◌then◌else◌,
}
use ucloud_sandboxes_sdk.Errors.{
  Exception, value_error, invalid_argument, too_large, unicode_error, Result, ok, check, require,
  ◌>>=◌, ◌>>◌,
}
use ucloud_sandboxes_sdk.Transport.Requests.{max_file_body}
use ucloud_sandboxes_sdk.Archive.Parts.{split_slash, join_slash, is_slash, container_path_parts}

pub data Content : Type 0 where
  bytes : List ℕ → Content
  text : List ℕ → Content

-- `char.encode("utf-8")`, none for a surrogate.
abbrev pub encode_code : ℕ → Option (List ℕ)
encode_code c =
    if ltb c 128
    then some (c ∷ [])
    else if ltb c 2048
    then some ((192 + c / 64) ∷ (128 + c % 64) ∷ [])
    else if leb 55296 c && leb c 57343
    then none
    else if ltb c 65536
    then some ((224 + c / 4096) ∷ (128 + c / 64 % 64) ∷ (128 + c % 64) ∷ [])
    else some
        ((240 + c / 262144) ∷ (128 + c / 4096 % 64) ∷ (128 + c / 64 % 64) ∷ (128 + c % 64) ∷ [])

unfoldable pub encode : List ℕ → Result Exception (List ℕ)
encode [] = ok []
encode (c ∷ s) = do
  first ← require (encode_code c) unicode_error
  rest ← encode s
  ok (first ++ rest)

-- `_bytes_payload`.
unfoldable pub bytes_payload : Content → Result Exception (List ℕ)
bytes_payload (bytes data_) = ok data_
bytes_payload (text s) = encode s

-- One entry of `named`.
pub record Named : Type 0 where
  pub name : List ℕ
  pub path : List ℕ
  pub content : List ℕ

abbrev pub has_name : List ℕ → List Named → Bool
has_name n named = any (λ m. same_codes n m.name) named

abbrev pub total_of : List Named → ℕ
total_of [] = 0
total_of (m ∷ named) = length m.content + total_of named

abbrev pub refuse : Exception
refuse = value_error (invalid_argument "files")

-- `parts[len(base_parts):]` where `parts[:len(base_parts)] == base_parts`.
abbrev pub after_base : List (List ℕ) → List (List ℕ) → Option (List (List ℕ))
after_base [] parts = some parts
after_base (b ∷ base) [] = none
after_base (b ∷ base) (p ∷ parts) = if same_codes p b then after_base base parts else none

abbrev pub ends_slash : List ℕ → Bool
ends_slash [] = false
ends_slash (c ∷ []) = is_slash c
ends_slash (c ∷ d ∷ s) = ends_slash (d ∷ s)

abbrev pub is_absolute : List ℕ → Bool
is_absolute path = begins (b'/' ∷ []) path

unfoldable pub relative : List (List ℕ) → List ℕ → List (List ℕ) → Result Exception (List (List ℕ))
relative base path parts =
    if is_absolute path then require (after_base base parts) refuse else ok parts

-- The components of a file's path under the base directory.
unfoldable pub member_parts : List (List ℕ) → List ℕ → Result Exception (List (List ℕ))
member_parts base path = do
  check (not (is_empty path)) refuse
  check (not (ends_slash path)) refuse
  parts ← container_path_parts path "file path"
  below ← relative base path parts
  check (not (is_empty below)) refuse
  ok below

-- The body of the loop over `files`.
unfoldable pub add_file :
    List (List ℕ) → List Named → List ℕ × Content → Result Exception (List Named)
add_file base named file = do
  parts ← member_parts base file.0
  let name = join_slash parts
  check (not (has_name name named)) refuse
  content ← bytes_payload file.1
  ok (named ++ (record { name = name; path = file.0; content = content } ∷ []))

unfoldable pub add_files :
    List (List ℕ) → List Named → List (List ℕ × Content) → Result Exception (List Named)
add_files base named [] = ok named
add_files base named (file ∷ files) = do more ← add_file base named file; add_files base more files

-- `range(start, start + n)`.
abbrev pub range : ℕ → ℕ → List ℕ
range start zero = []
range start (suc n) = start ∷ range (suc start) n

abbrev pub take {ℓ} : {A : Type ℓ} → ℕ → List A → List A
take zero xs = []
take (suc n) [] = []
take (suc n) (x ∷ xs) = x ∷ take n xs

-- Whether some `"/".join(parts[:depth])` for `depth` in `range(1, len(parts))` is a name.
abbrev pub has_parent : List Named → List ℕ → Bool
has_parent named name =
    let parts = split_slash name in
    any (λ depth. has_name (join_slash (take depth parts)) named) (range 1 (length parts - 1))

-- `a < b` on texts.
abbrev pub before : List ℕ → List ℕ → Bool
before s [] = false
before [] (b ∷ t) = true
before (a ∷ s) (b ∷ t) = if eqb a b then before s t else ltb a b

-- `sorted(named)`, with the contents.
abbrev pub insert : Named → List Named → List Named
insert m [] = m ∷ []
insert m (n ∷ named) =
    let rest = insert m named in if before n.name m.name then n ∷ rest else m ∷ n ∷ named

abbrev pub sort : List Named → List Named
sort [] = []
sort (m ∷ named) = insert m (sort named)

pub record FileArchive : Type 0 where
  pub base_dir : List ℕ
  pub members : List Named
  pub mode : ℕ
  pub total_bytes : ℕ

abbrev pub max_archive_files : ℕ
max_archive_files = 10000

-- `0 <= mode <= 0o777`.
abbrev pub permission_mode : ℤ → Option ℕ
permission_mode (pos n) = if leb n 511 then some n else none
permission_mode _ = none

-- `_file_archive`.
unfoldable pub file_archive : List (List ℕ × Content) → List ℕ → ℤ → Result Exception FileArchive
file_archive files base_dir mode = do
  check (is_absolute base_dir) (value_error (invalid_argument "base_dir"))
  base ← container_path_parts base_dir "base_dir"
  permissions ← require (permission_mode mode) (value_error (invalid_argument "mode"))
  check (leb (length files) max_archive_files) refuse
  named ← add_files base [] files
  check (leb (total_of named) max_file_body) (value_error (too_large max_file_body))
  check (not (any (λ m. has_parent named m.name) named)) refuse
  ok (record {
    base_dir = b'/' ∷ join_slash base;
    members = sort named;
    mode = permissions;
    total_bytes = total_of named;
  })
