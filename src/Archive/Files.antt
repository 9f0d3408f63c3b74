-- ===== src/Archive/Files.antt =====
-- What each file of the mapping adds to an archive (src/ucloud_sandboxes_sdk/client.py,
-- `_file_archive`).
use ucloud_sandboxes_sdk.Prelude.{
  ℕ, Bool, true, false, not, Option, some, List, [], ◌∷◌, ◌++◌, ◌||◌, any, is_empty, same_codes,
  All, ◌≡◌, refl, subst, ◌∙◌, arith, inl, inr, Bool-cases, not-true,
}
use ucloud_sandboxes_sdk.Errors.{
  ok, Exception, check, require, Ensures, Ensures-bind, Ensures-ok, check-ok,
}
use ucloud_sandboxes_sdk.Archive.Parts.{join_slash, container_path_parts, IsPart}
use ucloud_sandboxes_sdk.Archive.Plan.{
  Content, Named, has_name, refuse, after_base, ends_slash, is_absolute, relative, member_parts,
  add_file, bytes_payload, add_files,
}
use ucloud_sandboxes_sdk.Archive.Slashes.{container_path_parts-IsPart}
use ucloud_sandboxes_sdk.Archive.Sorted.{Distinct}

-- A name of parts that are safe to extract below a directory.
abbrev pub IsMember : Named → Type 0
IsMember m =
    (p : List ℕ) × (ps : List (List ℕ)) × (m.name ≡ join_slash (p ∷ ps)) × All IsPart (p ∷ ps)

after_base-All :
    (P : List ℕ → Type 0) (base parts below : List (List ℕ))
    → after_base base parts ≡ some below
    → All P parts
    → All P below
after_base-All P [] parts below h a = subst (All P) (ground arith) a
after_base-All P (b ∷ base) [] below h a = cc
after_base-All P (b ∷ base) (p ∷ parts) below h a =
    after_base-All P base parts below (ground arith) a.1

pub require-some :
    {A : Type 0} (o : Option A) (e : Exception) {a : A} → require o e ≡ ok a → o ≡ some a
require-some o e h = ground arith

relative-All :
    (P : List ℕ → Type 0) (base : List (List ℕ)) (path : List ℕ) (parts below : List (List ℕ))
    → relative base path parts ≡ ok below
    → All P parts
    → All P below
unfolding relative
relative-All P base path parts below h a = elim (Bool-cases (is_absolute path)) [
  | inl e ↦
      after_base-All P base parts below (require-some (after_base base parts) refuse (ground arith))
        a
  | inr e ↦ subst (All P) (ground arith) a
]

pub member_parts-IsPart :
    (base : List (List ℕ)) (path : List ℕ)
    → Ensures (λ parts. All IsPart parts × (not (is_empty parts) ≡ true)) (member_parts base path)
unfolding member_parts
member_parts-IsPart base path = Ensures-bind (check (not (is_empty path)) refuse) _ λ _ _.
    Ensures-bind (check (not (ends_slash path)) refuse) _ λ _ _.
      Ensures-bind (container_path_parts path "file path") _ λ all cut.
        Ensures-bind (relative base path all) _ λ below rel.
          Ensures-bind (check (not (is_empty below)) refuse) _ λ _ part. Ensures-ok below (
            relative-All IsPart base path all below rel
                (container_path_parts-IsPart path _ all cut),
            check-ok _ _ part,
          )

-- What one file of the mapping adds.
pub record Adds (base : List (List ℕ)) (named : List Named) (file : List ℕ × Content)
    (more : List Named) : Type 0 where
  pub parts : List (List ℕ)
  pub content : List ℕ
  pub cut : member_parts base file.0 ≡ ok parts
  pub fresh : has_name (join_slash parts) named ≡ false
  pub read : bytes_payload file.1 ≡ ok content
  pub appended :
      more ≡ named ++ (record { name = join_slash parts; path = file.0; content = content } ∷ [])

pub add_file-Adds :
    (base : List (List ℕ)) (named : List Named) (file : List ℕ × Content)
    → Ensures (Adds base named file) (add_file base named file)
unfolding add_file
add_file-Adds base named file = Ensures-bind (member_parts base file.0) _ λ parts cut.
    Ensures-bind (check (not (has_name (join_slash parts) named)) refuse) _ λ _ fresh.
      Ensures-bind (bytes_payload file.1) _ λ content read. Ensures-ok _ (record {
        parts = parts;
        content = content;
        cut = cut;
        fresh = not-true _ (check-ok _ _ fresh);
        read = read;
        appended = refl;
      })

-- A property of the entries that every file keeps holds of the entries of all files.
pub add_files-rule :
    (base : List (List ℕ)) (P : List Named → List (List ℕ × Content) → Type 0)
    → ((named more : List Named) (file : List ℕ × Content) (files : List (List ℕ × Content))
        → Adds base named file more
        → P named (file ∷ files)
        → P more files)
    → (named : List Named) (files : List (List ℕ × Content)) → P named files
    → Ensures (λ out. P out []) (add_files base named files)
unfolding add_files
add_files-rule base P step named [] p = Ensures-ok named p
add_files-rule base P step named (file ∷ files) p =
    Ensures-bind (add_file base named file) _ λ more add.
      add_files-rule base P step more files
        (step named more file files ((add_file-Adds base named file).at more add) p)

pub All-snoc :
    (P : Named → Type 0) (named : List Named) (m : Named)
    → All P named
    → P m
    → All P (named ++ (m ∷ []))
All-snoc P [] m h p = (p, tt)
All-snoc P (n ∷ named) m h p = (h.0, All-snoc P named m h.1 p)

pub any-append : (q : Named → Bool) (xs ys : List Named) → any q (xs ++ ys) ≡ (any q xs || any q ys)
any-append q [] ys = refl
any-append q (x ∷ xs) ys = rw (any-append q xs ys) (ground arith)

pub same_codes_sym : (s t : List ℕ) → same_codes s t ≡ same_codes t s
same_codes_sym [] [] = refl
same_codes_sym [] (b ∷ t) = refl
same_codes_sym (a ∷ s) [] = refl
same_codes_sym (a ∷ s) (b ∷ t) =
    let ih : same_codes s t ≡ same_codes t s = same_codes_sym s t in ground arith

pub Distinct-snoc :
    (named : List Named) (m : Named)
    → Distinct named
    → has_name m.name named ≡ false
    → Distinct (named ++ (m ∷ []))
Distinct-snoc [] m h fresh = (refl, tt)
Distinct-snoc (n ∷ named) m h fresh =
    let other : same_codes m.name n.name ≡ false = ground arith in
    let fresh_rest : has_name m.name named ≡ false = ground arith in
    (
      any-append _ named (m ∷ []) ∙ rw (h.0, same_codes_sym n.name m.name, other) refl,
      Distinct-snoc named m h.1 fresh_rest,
    )
