-- ===== src/Archive/Upload.antt =====
-- Sending the archive, or its files one by one (src/ucloud_sandboxes_sdk/client.py:
-- `SandboxClient.upload_file`, `upload_files`, `_validate_file_upload_response`,
-- `_validate_archive_upload_response`, `_FileArchive.container_path`, `_FileArchive.summary`).
use ucloud_sandboxes_sdk.Prelude.{
  ℕ, suc, String, Bool, true, false, none, some, List, [], ◌∷◌, ◌++◌, ◌&&◌, eqb, leb, codes, length,
  is_empty, same_codes, if◌then◌else◌, ℤ,
}
use ucloud_sandboxes_sdk.Json.{Json, str, Fields, obj, get, is_true, equals_text, equals_nat}
use ucloud_sandboxes_sdk.Errors.{
  plain, Exception, api_error, invalid_answer, value_error, too_large, Result, ok, err,
}
use ucloud_sandboxes_sdk.Transport.Requests.{max_file_body}
use ucloud_sandboxes_sdk.Archive.Parts.{is_slash}
use ucloud_sandboxes_sdk.Archive.Plan.{Content, Named, FileArchive, file_archive}

-- A PUT of the client: the container path in its query, and the bytes of its body.
pub data Put : Type 0 where
  put_file : List ℕ → List ℕ → Put
  put_archive : List ℕ → List ℕ → Put

-- `value == path`.
abbrev pub equals_codes : Json → List ℕ → Bool
equals_codes (str s) path = same_codes (codes s) path
equals_codes _ path = false

unfoldable pub validate_file_upload_response :
    Fields → String → List ℕ → ℕ → Result Exception Fields
validate_file_upload_response response sandbox_id path size =
    if is_true (get response "ok")
      && equals_text (get response "sandbox_id") sandbox_id
      && equals_codes (get response "path") path
      && equals_nat (get response "size") size
    then ok response
    else err (api_error (plain (invalid_answer "file upload acknowledgement") (obj response)))

unfoldable pub validate_archive_upload_response :
    Fields → String → FileArchive → ℕ → Result Exception Fields
validate_archive_upload_response response sandbox_id archive size =
    if is_true (get response "ok")
      && equals_text (get response "sandbox_id") sandbox_id
      && equals_codes (get response "path") archive.base_dir
      && equals_nat (get response "files") (length archive.members)
      && equals_nat (get response "bytes") archive.total_bytes
      && equals_nat (get response "size") size
    then ok response
    else err (api_error (plain (invalid_answer "archive upload acknowledgement") (obj response)))

-- `text.rstrip("/")`.
abbrev pub strip_slashes : List ℕ → List ℕ
strip_slashes [] = []
strip_slashes (c ∷ s) =
    let rest = strip_slashes s in if is_slash c && is_empty rest then [] else c ∷ rest

unfoldable pub container_path : FileArchive → List ℕ → List ℕ
container_path archive name = strip_slashes archive.base_dir ++ b'/' ∷ name

-- `summary`, or the acknowledgement of the gateway. `fallback` is `"fallback": "per_file"`.
pub data Uploaded : Type 0 where
  summary : (path : List ℕ) → (files total : ℕ) → (fallback : Bool) → Uploaded
  acknowledged : Fields → Uploaded

abbrev pub summary_of : FileArchive → Bool → Uploaded
summary_of archive fallback =
    summary archive.base_dir (length archive.members) archive.total_bytes fallback

-- `exc.status_code in ARCHIVE_UPLOAD_FALLBACK_STATUSES`.
abbrev pub falls_back : Exception → Bool
falls_back (api_error e) = elim e.status_code [
  | none ↦ false
  | some status ↦
      if eqb status 403
      then true
      else if eqb status 404
      then true
      else if eqb status 405
      then true
      else eqb status 501
]
falls_back _ = false

-- `gateway` is what `_request_json` returns or raises for the request of each number; `pack` is the
-- gzip of the tar of the members.
module _ (pack : FileArchive → List ℕ) (gateway : ℕ → Result Exception Fields)
    (sandbox_id : String) where
  unfoldable pub upload_file : ℕ → List ℕ → List ℕ → Result Exception Fields
  upload_file number path content = elim (gateway number) [
    | err e ↦ err e
    | ok response ↦ validate_file_upload_response response sandbox_id path (length content)
  ]

  -- `for name, content in archive.members`, with the requests that were sent.
  unfoldable pub upload_each : FileArchive → ℕ → List Named → Result Exception (Unit {0}) × List Put
  upload_each archive number [] = (ok tt, [])
  upload_each archive number (m ∷ members) =
      let path = container_path archive m.name in
      let rest = upload_each archive (suc number) members in
      elim (upload_file number path m.content) [
        | err e ↦ (err e, put_file path m.content ∷ [])
        | ok _ ↦ (rest.0, put_file path m.content ∷ rest.1)
      ]

  -- `archive.body()`.
  unfoldable pub body : FileArchive → Result Exception (List ℕ)
  body archive =
      if leb (length (pack archive)) max_file_body
      then ok (pack archive)
      else err (value_error (too_large max_file_body))

  unfoldable pub after_archive :
      FileArchive → ℕ → Result Exception Fields → Result Exception Uploaded × List Put
  after_archive archive size (ok response) =
      elim (validate_archive_upload_response response sandbox_id archive size) [
        | err e ↦ (err e, [])
        | ok fields ↦ (ok (acknowledged fields), [])
      ]
  after_archive archive size (err e) =
      let each = upload_each archive 1 archive.members in
      if falls_back e
      then elim each.0 [ err f ↦ (err f, each.1) | ok _ ↦ (ok (summary_of archive true), each.1) ]
      else (err e, [])

  unfoldable pub send_archive : FileArchive → Result Exception Uploaded × List Put
  send_archive archive = elim (body archive) [
    | err e ↦ (err e, [])
    | ok sent ↦
        let (out, puts) = after_archive archive (length sent) (gateway 0) in
        (out, put_archive archive.base_dir sent ∷ puts)
  ]

  unfoldable pub upload_files :
      List (List ℕ × Content) → List ℕ → ℤ → Result Exception Uploaded × List Put
  upload_files files base_dir mode = elim (file_archive files base_dir mode) [
    | err e ↦ (err e, [])
    | ok archive ↦
        if is_empty archive.members
        then (ok (summary_of archive false), [])
        else send_archive archive
  ]
