-- ===== src/Archive/Sent.antt =====
-- What an upload that succeeds has sent (src/ucloud_sandboxes_sdk/client.py:
-- `SandboxClient.upload_files`).
use ucloud_sandboxes_sdk.Prelude.{
  ℕ, suc, String, true, false, List, [], ◌∷◌, map, ◌≡◌, refl, ap, ◌∙◌, arith, sym, subst, length,
  is_empty, inl, inr, Bool-cases, ℤ,
}
use ucloud_sandboxes_sdk.Json.{Fields, get, is_true, equals_text, equals_nat}
use ucloud_sandboxes_sdk.Errors.{Exception, Result, ok, err, Result-cases}
use ucloud_sandboxes_sdk.Archive.Plan.{Content, Named, FileArchive, file_archive}
use ucloud_sandboxes_sdk.Archive.Upload.{
  Put, put_file, put_archive, equals_codes, validate_file_upload_response,
  validate_archive_upload_response, container_path, Uploaded, acknowledged, summary_of, falls_back,
  upload_file, upload_each, body, after_archive, send_archive, upload_files,
}

pub record FileAgrees (response : Fields) (sandbox_id : String) (path : List ℕ) (size : ℕ)
    : Type 0 where
  pub is_ok : is_true (get response "ok") ≡ true
  pub same_sandbox : equals_text (get response "sandbox_id") sandbox_id ≡ true
  pub same_path : equals_codes (get response "path") path ≡ true
  pub same_size : equals_nat (get response "size") size ≡ true

pub record ArchiveAgrees (response : Fields) (sandbox_id : String) (archive : FileArchive)
    (size : ℕ) : Type 0 where
  pub file : FileAgrees response sandbox_id archive.base_dir size
  pub same_files : equals_nat (get response "files") (length archive.members) ≡ true
  pub same_bytes : equals_nat (get response "bytes") archive.total_bytes ≡ true

validate_file-FileAgrees :
    (response : Fields) (sandbox_id : String) (path : List ℕ) (size : ℕ) (fields : Fields)
    → validate_file_upload_response response sandbox_id path size ≡ ok fields
    → FileAgrees response sandbox_id path size
unfolding validate_file_upload_response
validate_file-FileAgrees response sandbox_id path size fields h = record {
  is_ok = ground arith;
  same_sandbox = ground arith;
  same_path = ground arith;
  same_size = ground arith;
}

validate_archive-ArchiveAgrees :
    (response : Fields) (sandbox_id : String) (archive : FileArchive) (size : ℕ) (fields : Fields)
    → validate_archive_upload_response response sandbox_id archive size ≡ ok fields
    → (response ≡ fields) × ArchiveAgrees response sandbox_id archive size
unfolding validate_archive_upload_response
validate_archive-ArchiveAgrees response sandbox_id archive size fields h =
    let same : response ≡ fields = ground arith in
    (
      same,
      record {
        file = record {
          is_ok = ground arith;
          same_sandbox = ground arith;
          same_path = ground arith;
          same_size = ground arith;
        };
        same_files = ground arith;
        same_bytes = ground arith;
      },
    )

module _ (pack : FileArchive → List ℕ) (gateway : ℕ → Result Exception Fields)
    (sandbox_id : String) where
  abbrev file_put : FileArchive → Named → Put
  file_put archive m = put_file (container_path archive m.name) m.content

  -- The requests from a number on are answered for the files, in order.
  abbrev pub AllAgree : FileArchive → ℕ → List Named → Type 0
  AllAgree archive number [] = Unit
  AllAgree archive number (m ∷ members) =
      ((response : Fields) × (gateway number ≡ ok response)
        × FileAgrees response sandbox_id (container_path archive m.name) (length m.content))
      × AllAgree archive (suc number) members

  -- Nothing where there are no files; the archive, which was acknowledged as it is; or, after its
  -- refusal, every file by itself, in the archive's order, each one acknowledged.
  pub data Sent (archive : FileArchive) : Uploaded → List Put → Type 0 where
    nothing : archive.members ≡ [] → Sent archive (summary_of archive false) []
    whole :
        (response : Fields)
        → gateway 0 ≡ ok response
        → ArchiveAgrees response sandbox_id archive (length (pack archive))
        → Sent archive (acknowledged response) (put_archive archive.base_dir (pack archive) ∷ [])
    each :
        (e : Exception)
        → gateway 0 ≡ err e
        → falls_back e ≡ true
        → AllAgree archive 1 archive.members
        → Sent archive (summary_of archive true) (
            put_archive archive.base_dir (pack archive)
            ∷ map (λ m. put_file (container_path archive m.name) m.content) archive.members)

  upload_file-FileAgrees :
      (number : ℕ) (path content : List ℕ) (fields : Fields)
      → upload_file pack gateway sandbox_id number path content ≡ ok fields
      → (response : Fields) × (gateway number ≡ ok response)
        × FileAgrees response sandbox_id path (length content)
  unfolding upload_file
  upload_file-FileAgrees number path content fields h = elim (Result-cases (gateway number)) [
    | inl (e, failed) ↦ ground arith
    | inr (response, answered) ↦ (
      response,
      answered,
      validate_file-FileAgrees response sandbox_id path (length content) fields (ground arith),
    )
  ]

  upload_each-ok :
      (archive : FileArchive) (number : ℕ) (members : List Named)
      → (upload_each pack gateway sandbox_id archive number members).0 ≡ ok tt
      → ((upload_each pack gateway sandbox_id archive number members).1
          ≡ map (λ m. put_file (container_path archive m.name) m.content) members)
        × AllAgree archive number members
  unfolding upload_each
  upload_each-ok archive number [] h = (refl, tt)
  upload_each-ok archive number (m ∷ members) h =
      elim (Result-cases
        (upload_file pack gateway sandbox_id number (container_path archive m.name) m.content)) [
          | inl (e, failed) ↦ absurd (ground arith)
          | inr (fields, passed) ↦
              let (puts, agree) = upload_each-ok archive (suc number) members (ground arith) in
              (
                rw (passed, upload_each) (ap (λ t. file_put archive m ∷ t) puts),
                (
                  upload_file-FileAgrees number (container_path archive m.name) m.content fields
                      passed,
                  agree,
                ),
              )
        ]

  empty : (named : List Named) → is_empty named ≡ true → named ≡ []
  empty [] h = refl
  empty (m ∷ named) h = cc

  Sent-eq :
      {archive : FileArchive} {out sent_out : Uploaded} {puts sent_puts : List Put}
      → Sent archive sent_out sent_puts
      → sent_out ≡ out
      → sent_puts ≡ puts
      → Sent archive out puts
  Sent-eq {archive = archive} {sent_out = sent_out} {puts = puts} s e f =
      subst (λ t. Sent archive t puts) e (subst (λ t. Sent archive sent_out t) f s)

  send_archive-Sent :
      (archive : FileArchive) (out : Uploaded) (puts : List Put)
      → send_archive pack gateway sandbox_id archive ≡ (ok out, puts)
      → Sent archive out puts
  unfolding send_archive after_archive body
  send_archive-Sent archive out puts h = elim (Result-cases (gateway 0)) [
    | inr (response, answered) ↦
        elim (Result-cases
          (validate_archive_upload_response response sandbox_id archive (length (pack archive)))) [
            | inl (e, refused) ↦ absurd (ground arith)
            | inr (fields, valid) ↦
                let (same, agrees) =
                  validate_archive-ArchiveAgrees response sandbox_id archive _ fields valid in
                Sent-eq (whole response answered agrees) (ap acknowledged same ∙ ground arith)
                  (ground arith)
          ]
    | inl (e, refused) ↦ elim (Bool-cases (falls_back e)) [
      | inr raises ↦ absurd (ground arith)
      | inl goes_on ↦
          elim (Result-cases (upload_each pack gateway sandbox_id archive 1 archive.members).0) [
            | inl (f, failed) ↦ absurd (ground arith)
            | inr (_, done) ↦
                let (sent, agree) = upload_each-ok archive 1 archive.members done in
                Sent-eq (each e refused goes_on agree) (ground arith) (
                  ap (λ t. put_archive archive.base_dir (pack archive) ∷ t) (sym sent)
                  ∙ ground arith)
          ]
    ]
  ]

  -- An upload that returns has sent nothing where there are no files, or the archive, whose
  -- acknowledgement has its path, its counts and its size, or, after the archive was refused, every
  -- file by itself, in the archive's order, each with an acknowledgement of its path and size.
  pub upload_files-Sent :
      (files : List (List ℕ × Content)) (base_dir : List ℕ) (mode : ℤ) (out : Uploaded)
      (puts : List Put)
      → upload_files pack gateway sandbox_id files base_dir mode ≡ (ok out, puts)
      → (archive : FileArchive) × (file_archive files base_dir mode ≡ ok archive)
        × Sent archive out puts
  unfolding upload_files
  upload_files-Sent files base_dir mode out puts h =
      elim (Result-cases (file_archive files base_dir mode)) [
        | inl (e, refused) ↦ ground arith
        | inr (archive, planned) ↦ (
          archive,
          planned,
          elim (Bool-cases (is_empty archive.members)) [
            | inl none_left ↦ Sent-eq (nothing (empty _ none_left)) (ground arith) (ground arith)
            | inr some_left ↦ send_archive-Sent archive out puts (ground arith)
          ],
        )
      ]
