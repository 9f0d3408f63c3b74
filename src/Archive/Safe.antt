-- ===== src/Archive/Safe.antt =====
-- What an accepted archive is (src/ucloud_sandboxes_sdk/client.py, `_file_archive`).
use ucloud_sandboxes_sdk.Prelude.{
  ℕ, zero, suc, ◌+◌, ◌-◌, ◌≤◌, ◌<◌, Bool, true, false, not, some, List, [], ◌∷◌, ◌++◌, any, leb,
  length, length-append, is_empty, same_codes, All, ◌≡◌, refl, sym, ap, subst, ◌∙◌, arith, inl, inr,
  Bool-cases, leb→le, not-true, ℤ,
}
use ucloud_sandboxes_sdk.Errors.{
  value_error, invalid_argument, too_large, ok, check, require, Ensures, Ensures-bind, Ensures-ok,
  check-ok,
}
use ucloud_sandboxes_sdk.Transport.Requests.{max_file_body}
use ucloud_sandboxes_sdk.Archive.Parts.{split_slash, join_slash, container_path_parts, IsPart}
use ucloud_sandboxes_sdk.Archive.Plan.{
  Content, Named, has_name, total_of, refuse, is_absolute, add_files, range, take, has_parent, sort,
  FileArchive, max_archive_files, permission_mode, file_archive,
}
use ucloud_sandboxes_sdk.Archive.Slashes.{
  split_slash-cons, split_slash-append, join_slash-split_slash,
}
use ucloud_sandboxes_sdk.Archive.Sorted.{
  Ascending, Distinct, any-sort, All-sort, length-sort, total_of-sort, sort-Ascending,
}
use ucloud_sandboxes_sdk.Archive.Files.{
  IsMember, require-some, Adds, add_files-rule, member_parts-IsPart, All-snoc, Distinct-snoc,
}

nonempty :
    (ps : List (List ℕ))
    → not (is_empty ps) ≡ true
    → (p : List ℕ) × (qs : List (List ℕ)) × (ps ≡ p ∷ qs)
nonempty [] h = cc
nonempty (p ∷ ps) h = (p, ps, refl)

any-range :
    (f : ℕ → Bool) (n start d : ℕ)
    → any f (range start n) ≡ false
    → start ≤ d
    → d < start + n
    → f d ≡ false
any-range f zero start d h a b = absurd (omega arith)
any-range f (suc n) start d h a b =
    let first : f start ≡ false = ground arith in
    let rest : any f (range (suc start) n) ≡ false = ground arith in
    let ih : suc start ≤ d → f d ≡ false = λ k. any-range f n (suc start) d rest k (omega arith) in
    elim (Bool-cases (leb (suc start) d)) [
      | inl e ↦ ih (leb→le (suc start) d e)
      | inr e ↦ let same : start ≡ d = ground arith in subst (λ k. f k ≡ false) same first
    ]

take-length : {A : Type 0} (xs ys : List A) → take (length xs) (xs ++ ys) ≡ xs
take-length [] ys = refl
take-length (x ∷ xs) ys = ap (λ t. x ∷ t) (take-length xs ys)

-- The parents that the check looks up include every name that a slash follows.
has_parent-below :
    (named : List Named) (p rest : List ℕ)
    → has_parent named (p ++ b'/' ∷ rest) ≡ false
    → has_name p named ≡ false
has_parent-below named p rest h =
    let depth = length (split_slash p) in
    let (q, qs, cut) = split_slash-cons p in
    let (r, rs, cut_rest) = split_slash-cons rest in
    let lengths : length (split_slash p ++ split_slash rest) ≡ suc (length qs) + suc (length rs) =
      length-append (split_slash p) (split_slash rest) ∙ rw (cut, cut_rest) refl in
    let at : depth ≡ suc (length qs) = rw cut refl in
    let looked_up =
      any-range (λ d. has_name (join_slash (take d (split_slash p ++ split_slash rest))) named)
        (length (split_slash p ++ split_slash rest) - 1) 1 depth
        (subst
          (λ t. any (λ d. has_name (join_slash (take d t)) named) (range 1 (length t - 1)) ≡ false)
          (split_slash-append p rest) h)
        (omega arith) (omega arith) in
    subst (λ t. has_name t named ≡ false)
      (ap join_slash (take-length (split_slash p) (split_slash rest)) ∙ join_slash-split_slash p)
      looked_up

pub same_codes-eq : (s t : List ℕ) → same_codes s t ≡ true → s ≡ t
same_codes-eq [] [] h = refl
same_codes-eq [] (b ∷ t) h = cc
same_codes-eq (a ∷ s) [] h = cc
same_codes-eq (a ∷ s) (b ∷ t) h =
    let e : a ≡ b = ground arith in let ih = same_codes-eq s t (ground arith) in rw (e, ih) refl

any-member :
    (q : List ℕ → Bool) (named : List Named) (n : List ℕ)
    → any (λ m. q m.name) named ≡ false
    → has_name n named ≡ true
    → q n ≡ false
any-member q [] n h k = cc
any-member q (m ∷ named) n h k = elim (Bool-cases (same_codes n m.name)) [
  | inl e ↦ subst (λ t. q t ≡ false) (sym (same_codes-eq n m.name e)) (ground arith)
  | inr e ↦ any-member q named n (ground arith) (ground arith)
]

-- An archive that can be extracted below its directory, in any order: its members are named by
-- safe parts, in ascending order and so without repetition, and none is a directory of another.
pub record IsArchive (archive : FileArchive) : Type 0 where
  pub safe : All IsMember archive.members
  pub ascending : Ascending archive.members
  pub no_parent :
      (p rest : List ℕ)
      → has_name (p ++ b'/' ∷ rest) archive.members ≡ true
      → has_name p archive.members ≡ false
  pub total : archive.total_bytes ≡ total_of archive.members
  pub small : archive.total_bytes ≤ 268435456
  pub few : length archive.members ≤ 10000
  pub permission : archive.mode ≤ 511

pub record Fine (named : List Named) : Type 0 where
  pub safe : All IsMember named
  pub distinct : Distinct named

Adds-Fine :
    (base : List (List ℕ)) (named more : List Named) (file : List ℕ × Content)
    → Adds base named file more
    → Fine named
    → Fine more
Adds-Fine base named more file add h =
    let (parts, some_part) = (member_parts-IsPart base file.0).at add.parts add.cut in
    let (p, ps, e) = nonempty add.parts some_part in
    let m : Named = record { name = join_slash add.parts; path = file.0; content = add.content } in
    let fine : Fine (named ++ (m ∷ [])) = record {
      safe = All-snoc IsMember named m h.safe (p, ps, ap join_slash e, subst (All IsPart) e parts);
      distinct = Distinct-snoc named m h.distinct add.fresh;
    } in
    subst Fine (sym add.appended) fine

pub add_files-Fine :
    (base : List (List ℕ)) (files : List (List ℕ × Content))
    → Ensures (λ named. Fine named × (length named ≡ length files)) (add_files base [] files)
add_files-Fine base files =
    let P : List Named → List (List ℕ × Content) → Type 0 =
      λ named left. Fine named × (length named + length left ≡ length files) in
    let step : (named more : List Named) (file : List ℕ × Content) (left : List (List ℕ × Content))
        → Adds base named file more
        → P named (file ∷ left)
        → P more left =
      λ named more file left add p. (
        Adds-Fine base named more file add p.0,
        subst (λ t. length t + length left ≡ length files) (sym add.appended)
            (omega (arith, p.1, length-append named (_ ∷ []))),
      ) in
    let all =
      add_files-rule base P step [] files (record { safe = tt; distinct = tt }, omega arith) in
    record { at = λ named p. let (fine, e) = all.at named p in (fine, omega arith) }

permission-le : (mode : ℤ) (n : ℕ) → permission_mode mode ≡ some n → n ≤ 511
permission-le mode n h = ground arith

sorted-IsArchive :
    (base_dir : List ℕ) (named : List Named) (mode : ℕ)
    → Fine named
    → length named ≤ 10000
    → total_of named ≤ 268435456
    → any (λ m. has_parent named m.name) named ≡ false
    → mode ≤ 511
    → IsArchive (record {
      base_dir = base_dir;
      members = sort named;
      mode = mode;
      total_bytes = total_of named;
    })
sorted-IsArchive base_dir named mode fine few small apart permission = record {
  safe = All-sort IsMember named fine.safe;
  ascending = sort-Ascending named fine.distinct;
  no_parent = λ p rest h.
      any-sort (λ m. same_codes p m.name) named
      ∙ has_parent-below named p rest (
          any-member (has_parent named) named (p ++ b'/' ∷ rest) apart
            (sym (any-sort (λ m. same_codes (p ++ b'/' ∷ rest) m.name) named) ∙ h));
  total = sym (total_of-sort named);
  small = small;
  few = rw (length-sort named) few;
  permission = permission;
}

-- Every accepted archive can be extracted below its directory, in any order: the names are made of
-- safe parts, ascend, and no file is a directory of another; the counts are within their limits.
pub file_archive-IsArchive :
    (files : List (List ℕ × Content)) (base_dir : List ℕ) (mode : ℤ) (archive : FileArchive)
    → file_archive files base_dir mode ≡ ok archive
    → IsArchive archive
unfolding file_archive
file_archive-IsArchive files base_dir mode archive h =
    let all : Ensures IsArchive (file_archive files base_dir mode) =
      Ensures-bind (check (is_absolute base_dir) (value_error (invalid_argument "base_dir"))) _
        λ _ _. Ensures-bind (container_path_parts base_dir "base_dir") _ λ base _.
          Ensures-bind (require (permission_mode mode) (value_error (invalid_argument "mode"))) _
            λ permission allowed.
              Ensures-bind (check (leb (length files) max_archive_files) refuse) _ λ _ few.
                Ensures-bind (add_files base [] files) _ λ named added.
                  Ensures-bind
                    (check (leb (total_of named) max_file_body)
                      (value_error (too_large max_file_body)))
                    _
                    λ _ small.
                      Ensures-bind (check (not (any (λ m. has_parent named m.name) named)) refuse) _
                        λ _ apart.
                          let (fine, count) = (add_files-Fine base files).at named added in
                          Ensures-ok _ (
                            sorted-IsArchive _ named permission fine
                              (rw count (leb→le (length files) 10000 (check-ok _ _ few)))
                              (leb→le (total_of named) 268435456 (check-ok _ _ small))
                              (not-true _ (check-ok _ _ apart))
                              (permission-le mode permission (require-some _ _ allowed))) in
    all.at archive h
