-- ===== src/Examples/Jobs.antt =====
-- A job that is over, and the reads of its log.
use ucloud_sandboxes_sdk.Prelude.{
  ℕ, max, true, false, Option, some, none, List, [], ◌∷◌, ◌++◌, drop, flatten, pos, ◌≡◌, drop-all,
  sym, ap, ◌∙◌, refl, arith,
}
use mathlib.Core.List.{append-nil}
use ucloud_sandboxes_sdk.Json.{Fields, obj, str, int, field, end}
use ucloud_sandboxes_sdk.Errors.{ok}
use ucloud_sandboxes_sdk.Retry.Delay.{header, retry_after}
use ucloud_sandboxes_sdk.Job.Record.{
  JobRecord, server_job_cursor, with_cursor, read_job, is_valid_job, job_from_payload, job_record,
  checked_job, job_status_answer, terminal,
}
use ucloud_sandboxes_sdk.Job.Chunk.{
  Chunk, checked_chunk, read_chunk, chunk_from_payload, needs_status,
}
use ucloud_sandboxes_sdk.Job.Delay.{
  log_read, job_read_delay, log_delay, log_pause, is_early, is_read_out, progressed, stream_bytes,
  or_else,
}
use ucloud_sandboxes_sdk.Job.Follow.{
  LogReply, Followed, read_out, Serves, record_of, go_on, follow_chunk, follow_round, follow_from,
  follow, follow-IsSlice,
}
use ucloud_sandboxes_sdk.Examples.Values.{python, job_fields, after_two_seconds}

abbrev the_job : JobRecord
the_job = record {
  sandbox_id = "a";
  sandbox_generation = pos 1;
  job_id = "j";
  spec_sha256 = "";
  state = "exited";
  pid = 0;
  started_at = "";
  completed_at = "";
  exit_code = some (pos 0);
  signal = 0;
  stdout_bytes = 2;
  stderr_bytes = 0;
  stdout_truncated = false;
  stderr_truncated = false;
  sequence = 0;
  updated_at = "";
  cursor = "c1";
  cursor_from_server = true;
  retry_after = some 2000000;
}

status_accepted :
    job_status_answer python (obj (field "job" (obj job_fields) end)) after_two_seconds "a" "j"
    ≡ ok the_job
unfolding job_status_answer checked_job job_record job_from_payload read_job is_valid_job
    with_cursor server_job_cursor retry_after header
status_accepted = refl

-- Two bytes of standard output, from its start.
abbrev chunk_fields : Fields
chunk_fields = field "stream" (str "stdout") (
    field "offset" (int (pos 0))
      (field "next_offset" (int (pos 2)) (field "data" (str "aGk=") end)))

abbrev first_chunk : Chunk
first_chunk = record {
  stream = "stdout";
  offset = 0;
  next_offset = 2;
  bytes = 104 ∷ 105 ∷ [];
  eof = false;
  job = none;
  retry_after = none;
}

chunk_accepted : chunk_from_payload python (obj chunk_fields) ≡ ok first_chunk
unfolding chunk_from_payload read_chunk checked_chunk
chunk_accepted = refl

abbrev empty_chunk : Chunk
empty_chunk = record first_chunk { next_offset = 0; bytes = [] }

abbrev the_pause : ℕ
the_pause = 1000000

pauses : job_read_delay (log_read empty_chunk) 20 1 1000000 none none ≡ ok (some 1000000)
unfolding job_read_delay log_delay log_pause is_early progressed
pauses = refl

-- The log "hi", of a job that is over.
abbrev log : List ℕ
log = 104 ∷ 105 ∷ []

abbrev chunk_from : ℕ → Chunk
chunk_from offset = record first_chunk {
  offset = offset;
  next_offset = max 2 offset;
  bytes = drop offset log;
}

abbrev server : ℕ → ℕ → LogReply
server read offset = record { chunk = ok (chunk_from offset); status = ok the_job; took = 5 }

is_the_job :
    (c : Chunk) (known : Option JobRecord) (offset : ℕ) (r : JobRecord)
    → c ≡ chunk_from offset
    → record_of (server 0 offset) c ≡ ok known
    → or_else c.job known ≡ some r
    → r ≡ the_job
unfolding record_of
is_the_job c known offset r e status is = ground arith

server-Serves : Serves log server
unfolding stream_bytes
server-Serves = record {
  bytes = λ read offset c got.
      let e : chunk_from offset ≡ c = cc in
      rw (sym e) (
        sym (
          ap (λ l. drop offset log ++ l) (drop-all (max 2 offset) log (omega arith))
          ∙ append-nil (drop offset log)));
  counted = λ read offset c known r got status is over.
      let e : c ≡ chunk_from offset = cc in
      let j : r ≡ the_job = is_the_job c known offset r e status is in rw (j, e) (omega arith);
}

abbrev followed : Followed
followed = record { yielded = log ∷ []; offset = 2; end = read_out }

follows : follow server 1000000 9 "stdout" (pos 0) ≡ ok followed
unfolding follow follow_from follow_round follow_chunk go_on record_of needs_status job_read_delay
    log_delay log_pause is_early progressed is_read_out stream_bytes terminal
follows = refl

follow-IsSlice_example :
    (log ≡ flatten followed.yielded ++ drop 2 log)
    × (followed.end ≡ read_out → flatten followed.yielded ≡ log)
follow-IsSlice_example =
    follow-IsSlice log server 1000000 server-Serves 9 "stdout" (pos 0) followed follows
