-- ===== src/Job/Chunk.antt =====
-- A read of a job's log (src/ucloud_sandboxes_sdk/client.py: `SandboxJobLogChunk`,
-- `_job_log_answer`).
use ucloud_sandboxes_sdk.Prelude.{
  ℕ, ◌+◌, String, Bool, true, false, Option, none, some, List, [], ◌∷◌, ◌&&◌, ◌==◌, ℤ, pos, negsuc,
  is_nat, one_of, length, if◌then◌else◌, both_true, ◌≡◌, refl,
}
use ucloud_sandboxes_sdk.Json.{Json, Fields, obj, get, truthy, is_null}
use ucloud_sandboxes_sdk.Errors.{
  plain, Exception, api_error, invalid_answer, Result, ok, err, ◌>>=◌, ◌>>◌, check, check-ok,
  Ensures, Ensures-bind, Ensures-ok,
}
use ucloud_sandboxes_sdk.Runtime.{Runtime}
use ucloud_sandboxes_sdk.Transport.Decode.{Headers}
use ucloud_sandboxes_sdk.Retry.Delay.{retry_after}
use ucloud_sandboxes_sdk.Job.Record.{
  JobRecord, job_from_payload, to_int, to_text, text_or_empty, item,
}

pub record Chunk : Type 0 where
  pub stream : String
  pub offset : ℕ
  pub next_offset : ℕ
  pub bytes : List ℕ
  pub eof : Bool
  pub job : Option JobRecord
  pub retry_after : Option ℕ

abbrev bad_log {ℓ} : {A : Type ℓ} → Json → Result Exception A
bad_log body = err (api_error (plain (invalid_answer "job log payload") body))

abbrev optional_job : Runtime → Json → Result Exception (Option JobRecord)
optional_job py v = if is_null v then ok none else (do r ← job_from_payload py v; ok (some r))

module _ (py : Runtime) (fs : Fields) where
  abbrev need {ℓ} : {A : Type ℓ} → Option A → Result Exception A
  need (some a) = ok a
  need none = bad_log (obj fs)

  -- `offset < 0 or next_offset != offset + len(data)` is refused.
  abbrev natural : ℤ → Result Exception ℕ
  natural (pos n) = ok n
  natural (negsuc n) = bad_log (obj fs)

  -- The checks on what was read, and the job's record.
  unfoldable pub checked_chunk : String → ℕ → ℤ → List ℕ → Result Exception Chunk
  checked_chunk stream offset next_offset bytes = do
    check (one_of stream ("stdout" ∷ "stderr" ∷ []) && is_nat next_offset (offset + length bytes))
        (api_error (plain (invalid_answer "job log payload") (obj fs)))
    job ← optional_job py (get fs "job")
    ok (record {
      stream = stream;
      offset = offset;
      next_offset = offset + length bytes;
      bytes = bytes;
      eof = truthy (get fs "eof");
      job = job;
      retry_after = none;
    })

  unfoldable pub read_chunk : Result Exception Chunk
  unfolding checked_chunk
  read_chunk = do
    stream ← need (item fs "stream")
    offset_value ← need (item fs "offset")
    offset_int ← need (to_int py offset_value)
    next_value ← need (item fs "next_offset")
    next_offset ← need (to_int py next_value)
    bytes ← need (py.base64_of (text_or_empty py (get fs "data")))
    offset ← natural offset_int
    checked_chunk (to_text py stream) offset next_offset bytes

-- `SandboxJobLogChunk.from_payload`.
unfoldable pub chunk_from_payload : Runtime → Json → Result Exception Chunk
chunk_from_payload py (obj fs) = read_chunk py fs
chunk_from_payload py payload = bad_log payload

abbrev is_job_of : String → String → Option JobRecord → Bool
is_job_of sandbox_id job_id none = true
is_job_of sandbox_id job_id (some r) = r.sandbox_id == sandbox_id && r.job_id == job_id

abbrev stamp : Option ℕ → Option JobRecord → Option JobRecord
stamp after none = none
stamp after (some r) = some (record r { retry_after = after })

unfoldable pub job_log_answer : Runtime → Json → Headers → String → String → Result Exception Chunk
job_log_answer py response headers sandbox_id job_id = do
  chunk ← chunk_from_payload py response
  if is_job_of sandbox_id job_id chunk.job
      then ok (record chunk {
        retry_after = retry_after py headers;
        job = stamp (retry_after py headers) chunk.job;
      })
      else err (api_error (plain (invalid_answer "another sandbox job") response))

-- `_job_log_needs_status`.
unfoldable pub needs_status : Chunk → Bool
needs_status c = elim c.job [ some _ ↦ false | none ↦ elim c.bytes [ [] ↦ true | _ ∷ _ ↦ c.eof ] ]

-- A chunk that is accepted is of one of the two streams, and ends as many bytes after its offset
-- as it brings.
pub record IsChunk (c : Chunk) : Type 0 where
  pub stream_known : one_of c.stream ("stdout" ∷ "stderr" ∷ []) ≡ true
  pub next : c.next_offset ≡ c.offset + length c.bytes

module _ (py : Runtime) (fs : Fields) where
  checked_chunk-IsChunk :
      (stream : String) (offset : ℕ) (next_offset : ℤ) (bytes : List ℕ)
      → Ensures IsChunk (checked_chunk py fs stream offset next_offset bytes)
  unfolding checked_chunk
  checked_chunk-IsChunk stream offset next_offset bytes =
      Ensures-bind
        (check
          (one_of stream ("stdout" ∷ "stderr" ∷ []) && is_nat next_offset (offset + length bytes))
          _)
        _
        λ _ h. Ensures-bind (optional_job py (get fs "job")) _ λ job _.
          Ensures-ok _ (record { stream_known = (both_true _ _ (check-ok _ _ h)).0; next = refl })

  read_chunk-IsChunk : Ensures IsChunk (read_chunk py fs)
  unfolding read_chunk
  read_chunk-IsChunk = Ensures-bind (need py fs (item fs "stream")) _ λ stream _.
      Ensures-bind (need py fs (item fs "offset")) _ λ offset_value _.
        Ensures-bind (need py fs (to_int py offset_value)) _ λ offset _.
          Ensures-bind (need py fs (item fs "next_offset")) _ λ next_value _.
            Ensures-bind (need py fs (to_int py next_value)) _ λ next _.
              Ensures-bind (need py fs (py.base64_of (text_or_empty py (get fs "data")))) _
                λ bytes _.
                  Ensures-bind (natural py fs offset) _
                    λ start _. checked_chunk-IsChunk (to_text py stream) start next bytes

-- An accepted chunk brings bytes of one of the two streams, as many as it moves the offset by.
pub chunk_from_payload-IsChunk :
    (py : Runtime) (payload : Json) (c : Chunk) → chunk_from_payload py payload ≡ ok c → IsChunk c
unfolding chunk_from_payload
chunk_from_payload-IsChunk py (obj fs) c h = (read_chunk-IsChunk py fs).at c h
chunk_from_payload-IsChunk py _ c h = cc
