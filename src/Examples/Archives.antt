-- ===== src/Examples/Archives.antt =====
-- Two files below /srv, sent as an archive that the gateway refuses, and then one by one.
use ucloud_sandboxes_sdk.Prelude.{
  ℕ, zero, suc, String, true, some, List, [], ◌∷◌, codes, pos, ◌≡◌, refl,
}
use ucloud_sandboxes_sdk.Json.{Fields, end, field, bool, str, int, null}
use ucloud_sandboxes_sdk.Errors.{Exception, api_error, plain, os_failure, Result, ok, err}
use ucloud_sandboxes_sdk.Archive.Parts.{join_slash, container_path_parts}
use ucloud_sandboxes_sdk.Archive.Plan.{
  Content, bytes, text, encode, bytes_payload, relative, member_parts, add_file, add_files,
  FileArchive, file_archive,
}
use ucloud_sandboxes_sdk.Archive.Safe.{IsArchive, file_archive-IsArchive}
use ucloud_sandboxes_sdk.Archive.Extract.{Tree, extract, write_files, file_archive-refines}
use ucloud_sandboxes_sdk.Archive.Upload.{
  Put, summary, container_path, validate_file_upload_response, upload_file, upload_each, body,
  after_archive, send_archive, upload_files,
}
use ucloud_sandboxes_sdk.Archive.Sent.{Sent, upload_files-Sent}

-- "/srv//b" and "a/./c" below "/srv/".
abbrev files : List (List ℕ × Content)
files = (codes "/srv//b", text (233 ∷ [])) ∷ (codes "a/./c", bytes (1 ∷ 2 ∷ [])) ∷ []

abbrev planned : FileArchive
planned = record {
  base_dir = codes "/srv";
  members =
      record { name = codes "a/c"; path = codes "a/./c"; content = 1 ∷ 2 ∷ [] }
      ∷ record { name = codes "b"; path = codes "/srv//b"; content = 195 ∷ 169 ∷ [] }
      ∷ [];
  mode = 384;
  total_bytes = 4;
}

plans : file_archive files (codes "/srv/") (pos 384) ≡ ok planned
unfolding file_archive container_path_parts add_files add_file member_parts relative bytes_payload
    encode
plans = refl

file_archive-IsArchive_example : IsArchive planned
file_archive-IsArchive_example =
    file_archive-IsArchive files (codes "/srv/") (pos 384) planned plans

file_archive-refines_example :
    (base : List (List ℕ)) × (planned.base_dir ≡ b'/' ∷ join_slash base)
    × ((tree : Tree) (n : List ℕ) → extract planned.members tree n ≡ write_files base files tree n)
file_archive-refines_example = file_archive-refines files (codes "/srv/") (pos 384) planned plans

abbrev acknowledgement : String → Fields
acknowledgement path =
    field "ok" (bool true)
      (field "sandbox_id" (str "s") (field "path" (str path) (field "size" (int (pos 2)) end)))

-- The archive is not found; each file is acknowledged.
abbrev gateway : ℕ → Result Exception Fields
gateway zero = err (api_error (record (plain os_failure null) { status_code = some 404 }))
gateway (suc zero) = ok (acknowledgement "/srv/a/c")
gateway (suc (suc _)) = ok (acknowledgement "/srv/b")

abbrev pack : FileArchive → List ℕ
pack archive = 31 ∷ 139 ∷ []

abbrev puts : List Put
puts =
    Put.put_archive (codes "/srv") (31 ∷ 139 ∷ [])
    ∷ Put.put_file (codes "/srv/a/c") (1 ∷ 2 ∷ [])
    ∷ Put.put_file (codes "/srv/b") (195 ∷ 169 ∷ [])
    ∷ []

falls_back_to_files :
    upload_files pack gateway "s" files (codes "/srv/") (pos 384)
    ≡ (ok (summary (codes "/srv") 2 4 true), puts)
unfolding upload_files send_archive after_archive upload_each upload_file body container_path
    validate_file_upload_response file_archive container_path_parts add_files add_file member_parts
    relative bytes_payload encode
falls_back_to_files = refl

upload_files-Sent_example :
    (archive : FileArchive) × (file_archive files (codes "/srv/") (pos 384) ≡ ok archive)
    × Sent pack gateway "s" archive (summary (codes "/srv") 2 4 true) puts
upload_files-Sent_example =
    upload_files-Sent pack gateway "s" files (codes "/srv/") (pos 384)
      (summary (codes "/srv") 2 4 true) puts falls_back_to_files
