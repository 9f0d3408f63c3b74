-- ===== src/Archive/Extract.antt =====
-- An archive stands for writing its files one after another (src/ucloud_sandboxes_sdk/client.py,
-- `_file_archive`, `SandboxClient.upload_files`).
use ucloud_sandboxes_sdk.Prelude.{
  ℕ, false, not, Option, some, List, [], ◌∷◌, ◌++◌, any, leb, length, same_codes, ◌≡◌, refl, sym,
  ap, subst, ◌∙◌, arith, inl, inr, Bool-cases, ℤ, if◌then◌else◌,
}
use ucloud_sandboxes_sdk.Errors.{
  value_error, invalid_argument, too_large, ok, err, check, require, Ensures, Ensures-bind,
  Ensures-ok,
}
use ucloud_sandboxes_sdk.Transport.Requests.{max_file_body}
use ucloud_sandboxes_sdk.Archive.Parts.{join_slash, container_path_parts}
use ucloud_sandboxes_sdk.Archive.Plan.{
  Content, bytes_payload, Named, has_name, total_of, refuse, is_absolute, member_parts, add_file,
  add_files, before, insert, has_parent, sort, FileArchive, max_archive_files, permission_mode,
  file_archive,
}
use ucloud_sandboxes_sdk.Archive.Sorted.{Distinct, any-sort}
use ucloud_sandboxes_sdk.Archive.Files.{Adds, add_file-Adds}
use ucloud_sandboxes_sdk.Archive.Safe.{same_codes-eq, add_files-Fine}

-- What stands under each name below the base directory.
abbrev pub Tree : Type 0
Tree = List ℕ → Option (List ℕ)

abbrev pub write : List ℕ → List ℕ → Tree → Tree
write name content tree n = if same_codes n name then some content else tree n

-- Extracting the members, in order.
abbrev pub extract : List Named → Tree → Tree
extract [] tree = tree
extract (m ∷ members) tree = extract members (write m.name m.content tree)

-- Writing one file of the mapping where its path says.
abbrev pub write_file : List (List ℕ) → List ℕ × Content → Tree → Tree
write_file base file tree = elim (member_parts base file.0) [
  | err _ ↦ tree
  | ok parts ↦ elim (bytes_payload file.1) [
    | err _ ↦ tree
    | ok content ↦ write (join_slash parts) content tree
  ]
]

-- Writing all of them, in the order of the mapping.
abbrev pub write_files : List (List ℕ) → List (List ℕ × Content) → Tree → Tree
write_files base [] tree = tree
write_files base (file ∷ files) tree = write_files base files (write_file base file tree)

write-at :
    (name content : List ℕ) (f g : Tree) (n : List ℕ)
    → f n ≡ g n
    → write name content f n ≡ write name content g n
write-at name content f g n h = ap (λ t. if same_codes n name then some content else t) h

extract-at :
    (members : List Named) (f g : Tree) (n : List ℕ)
    → f n ≡ g n
    → extract members f n ≡ extract members g n
extract-at [] f g n h = h
extract-at (m ∷ members) f g n h = extract-at members _ _ n (write-at m.name m.content f g n h)

write-write :
    (a b : Named) (tree : Tree) (n : List ℕ)
    → same_codes a.name b.name ≡ false
    → write a.name a.content (write b.name b.content tree) n
      ≡ write b.name b.content (write a.name a.content tree) n
write-write a b tree n differ = elim (Bool-cases (same_codes n a.name)) [
  | inr e ↦ rw e refl
  | inl e ↦
      let other : same_codes n b.name ≡ false =
        subst (λ t. same_codes t b.name ≡ false) (sym (same_codes-eq n a.name e)) differ in
      rw (e, other) refl
]

extract-insert :
    (m : Named) (members : List Named) (tree : Tree) (n : List ℕ)
    → has_name m.name members ≡ false
    → extract (insert m members) tree n ≡ extract (m ∷ members) tree n
extract-insert m [] tree n fresh = refl
extract-insert m (k ∷ members) tree n fresh =
    let differ : same_codes m.name k.name ≡ false = ground arith in
    let fresh_rest : has_name m.name members ≡ false = ground arith in
    elim (Bool-cases (before k.name m.name)) [
      | inr e ↦ rw e refl
      | inl e ↦ rw e (
          extract-insert m members (write k.name k.content tree) n fresh_rest
          ∙ extract-at members _ _ n (write-write m k tree n differ))
    ]

extract-sort :
    (members : List Named) (tree : Tree) (n : List ℕ)
    → Distinct members
    → extract (sort members) tree n ≡ extract members tree n
extract-sort [] tree n h = refl
extract-sort (m ∷ members) tree n h =
    extract-insert m (sort members) tree n (any-sort (λ k. same_codes m.name k.name) members ∙ h.0)
    ∙ extract-sort members (write m.name m.content tree) n h.1

extract-append :
    (members : List Named) (m : Named) (tree : Tree)
    → extract (members ++ (m ∷ [])) tree ≡ write m.name m.content (extract members tree)
extract-append [] m tree = refl
extract-append (k ∷ members) m tree = extract-append members m (write k.name k.content tree)

Adds-write_file :
    (base : List (List ℕ)) (named more : List Named) (file : List ℕ × Content) (tree : Tree)
    → Adds base named file more
    → extract more tree ≡ write_file base file (extract named tree)
Adds-write_file base named more file tree add =
    ap (λ t. extract t tree) add.appended
    ∙ extract-append named _ tree
    ∙ rw (write_file, add.cut, add.read) refl

add_files-write_files :
    (base : List (List ℕ)) (named : List Named) (files : List (List ℕ × Content)) (tree : Tree)
    → Ensures
        (λ out. extract out tree ≡ write_files base files (extract named tree))
        (add_files base named files)
unfolding add_files
add_files-write_files base named [] tree = Ensures-ok named refl
add_files-write_files base named (file ∷ files) tree =
    Ensures-bind (add_file base named file) _ λ more added.
      let add = (add_file-Adds base named file).at more added in
      record {
        at = λ out p.
            (add_files-write_files base more files tree).at out p
            ∙ ap (write_files base files) (Adds-write_file base named more file tree add);
      }

-- The archive refines the mapping: extracting it leaves every name as writing each file of the mapping,
-- in the mapping's order, where its path says below the archive's directory.
pub file_archive-refines :
    (files : List (List ℕ × Content)) (base_dir : List ℕ) (mode : ℤ) (archive : FileArchive)
    → file_archive files base_dir mode ≡ ok archive
    → (base : List (List ℕ)) × (archive.base_dir ≡ b'/' ∷ join_slash base)
      × ((tree : Tree) (n : List ℕ)
          → extract archive.members tree n ≡ write_files base files tree n)
unfolding file_archive
file_archive-refines files base_dir mode archive h =
    let all : Ensures
        (λ (a : FileArchive).
          (base : List (List ℕ)) × (a.base_dir ≡ b'/' ∷ join_slash base)
          × ((tree : Tree) (n : List ℕ) → extract a.members tree n ≡ write_files base files tree n))
        (file_archive files base_dir mode) =
      Ensures-bind (check (is_absolute base_dir) (value_error (invalid_argument "base_dir"))) _
        λ _ _. Ensures-bind (container_path_parts base_dir "base_dir") _ λ base _.
          Ensures-bind (require (permission_mode mode) (value_error (invalid_argument "mode"))) _
            λ permission _.
              Ensures-bind (check (leb (length files) max_archive_files) refuse) _ λ _ _.
                Ensures-bind (add_files base [] files) _ λ named added.
                  Ensures-bind
                    (check (leb (total_of named) max_file_body)
                      (value_error (too_large max_file_body)))
                    _
                    λ _ _.
                      Ensures-bind (check (not (any (λ m. has_parent named m.name) named)) refuse) _
                        λ _ _.
                          let (fine, _) = (add_files-Fine base files).at named added in
                          Ensures-ok _ (
                            base,
                            refl,
                            λ tree n.
                                extract-sort named tree n fine.distinct
                                ∙ ap (λ t. t n)
                                    ((add_files-write_files base [] files tree).at named added),
                          ) in
    all.at archive h
