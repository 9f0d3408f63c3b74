-- ===== src/Job/Delay.antt =====
-- The pause between two reads of a job (src/ucloud_sandboxes_sdk/client.py: `job_read_delay`,
-- `_job_stream_bytes`, `JobOutputTruncatedError`). Times are in microseconds.
use ucloud_sandboxes_sdk.Prelude.{
  ℕ, ◌*◌, ◌≤◌, ◌<◌, max, String, Bool, true, false, not, Option, none, some, List, [], ◌∷◌, ◌++◌,
  ◌&&◌, ◌||◌, ◌==◌, ltb, leb, is_empty, if◌then◌else◌, ◌≡◌, arith, ◌⊎◌, ◌↔◌, inl, inr, Option-cases,
}
use ucloud_sandboxes_sdk.Errors.{Exception, type_error, invalid_argument, Result, ok, err}
use ucloud_sandboxes_sdk.Job.Record.{JobRecord, terminal}
use ucloud_sandboxes_sdk.Job.Chunk.{Chunk}

-- `JobOutputTruncatedError`, with the streams that its message names.
pub record Truncated : Type 0 where
  pub job : JobRecord
  pub streams : List String

abbrev pub when : Bool → String → List String
when true s = s ∷ []
when false s = []

unfoldable pub truncated : JobRecord → Truncated
truncated r = record {
  job = r;
  streams = when r.stdout_truncated "stdout" ++ when r.stderr_truncated "stderr";
}

pub data Failure : Type 0 where
  output_truncated : Truncated → Failure
  exception : Exception → Failure

pub data JobRead : Type 0 where
  status_read : JobRecord → JobRead
  log_read : Chunk → JobRead

unfoldable pub stream_bytes : JobRecord → String → ℕ
stream_bytes r stream = if stream == "stdout" then r.stdout_bytes else r.stderr_bytes

abbrev pub present {ℓ} : {A : Type ℓ} → Option A → Bool
present none = false
present (some _) = true

-- `elapsed_seconds < requested_seconds / 2`.
unfoldable pub is_early : ℕ → ℕ → Bool
is_early requested elapsed = ltb (2 * elapsed) requested

abbrev pub poll_pause : ℕ → ℕ
poll_pause poll = max 50000 poll

abbrev pub is_cursor : String → Option String → Bool
is_cursor cursor none = false
is_cursor cursor (some after) = cursor == after

unfoldable pub status_delay : JobRecord → ℕ → ℕ → ℕ → Option String → Option ℕ
status_delay r requested elapsed poll after = if terminal r then none else elim r.retry_after [
  | some pause ↦ some pause
  | none ↦
      if is_early requested elapsed && (is_cursor r.cursor after || not r.cursor_from_server)
      then some (poll_pause poll)
      else some 0
]

-- `read.job if read.job is not None else record`.
abbrev pub or_else {ℓ} : {A : Type ℓ} → Option A → Option A → Option A
or_else none other = other
or_else (some a) other = some a

abbrev pub is_ended : Option JobRecord → Bool
is_ended none = false
is_ended (some r) = terminal r

unfoldable pub progressed : Chunk → Option JobRecord → Bool
progressed c current = elim c.job [
  | some _ ↦ not (is_empty c.bytes)
  | none ↦ not (is_empty c.bytes) && (not c.eof || is_ended current)
]

-- What follows the tests on the current record.
unfoldable pub log_pause : Chunk → Option JobRecord → ℕ → ℕ → ℕ → ℕ
log_pause c current requested elapsed poll = elim c.retry_after [
  | some pause ↦ pause
  | none ↦ if is_early requested elapsed && not (progressed c current) then poll_pause poll else 0
]

-- Whether the job is over and the stream is read to its end.
unfoldable pub is_read_out : Chunk → JobRecord → Bool
is_read_out c r = terminal r && leb (stream_bytes r c.stream) c.next_offset

unfoldable pub log_delay : Chunk → ℕ → ℕ → ℕ → Option JobRecord → Result Failure (Option ℕ)
log_delay c requested elapsed poll record_read = elim (or_else c.job record_read) [
  | none ↦ ok (some (log_pause c none requested elapsed poll))
  | some r ↦
      if r.stdout_truncated || r.stderr_truncated
      then err (output_truncated (truncated r))
      else if is_read_out c r
      then ok none
      else ok (some (log_pause c (some r) requested elapsed poll))
]

abbrev misuse {ℓ} : {A : Type ℓ} → String → Result Failure A
misuse what = err (exception (type_error (invalid_argument what)))

unfoldable pub job_read_delay :
    JobRead → ℕ → ℕ → ℕ → Option String → Option JobRecord → Result Failure (Option ℕ)
unfolding status_delay log_delay
job_read_delay (status_read r) requested elapsed poll after record_read =
    if present record_read
    then misuse "record"
    else ok (status_delay r requested elapsed poll after)
job_read_delay (log_read c) requested elapsed poll after record_read =
    if present after then misuse "after" else log_delay c requested elapsed poll record_read

not_ended :
    (c : Chunk) (requested elapsed poll : ℕ) (known : Option JobRecord)
    → log_delay c requested elapsed poll known ≡ ok none
    → (r : JobRecord) × (or_else c.job known ≡ some r)
      × (r.stdout_truncated ≡ false)
      × (r.stderr_truncated ≡ false)
      × (is_read_out c r ≡ true)
unfolding log_delay
not_ended c requested elapsed poll known h = elim (Option-cases (or_else c.job known)) [
  | inl missing ↦ absurd (ground arith)
  | inr (r, known) ↦ (r, known, ground arith, ground arith, ground arith)
]

is_read_out_iff :
    (c : Chunk) (r : JobRecord)
    → (is_read_out c r ≡ true) ↔ ((terminal r ≡ true) × (stream_bytes r c.stream ≤ c.next_offset))
unfolding is_read_out
is_read_out_iff c r = ground arith

-- A log read ends the following exactly when the record that is known shows that no output was
-- dropped, that the job is over, and that the stream is read to its end.
pub log_read-none :
    (c : Chunk) (requested elapsed poll : ℕ) (known : Option JobRecord)
    → (job_read_delay (log_read c) requested elapsed poll none known ≡ ok none) ↔ (
        (r : JobRecord) × (or_else c.job known ≡ some r)
        × (r.stdout_truncated ≡ false)
        × (r.stderr_truncated ≡ false)
        × (terminal r ≡ true)
        × (stream_bytes r c.stream ≤ c.next_offset))
unfolding job_read_delay
log_read-none c requested elapsed poll known = (
  λ h.
      let (r, k, o, e, out) = not_ended c requested elapsed poll known h in
      let (t, b) = (is_read_out_iff c r).0 out in (r, k, o, e, t, b),
  λ (r, k, o, e, t, b). ground (arith, is_read_out_iff c r),
)

log_pause-cases :
    (c : Chunk) (current : Option JobRecord) (requested elapsed poll : ℕ)
    → (c.retry_after ≡ some (log_pause c current requested elapsed poll))
      ⊎ ((c.retry_after ≡ none)
          × ((log_pause c current requested elapsed poll ≡ 0)
              ⊎ ((log_pause c current requested elapsed poll ≡ max 50000 poll)
                  × (2 * elapsed < requested)
                  × (progressed c current ≡ false))))
unfolding log_pause is_early
log_pause-cases c current requested elapsed poll = elim (Option-cases c.retry_after) [
  | inr (pause, given) ↦ ground arith
  | inl missing ↦ inr (missing, ground arith)
]

log_delay-log_pause :
    (c : Chunk) (requested elapsed poll : ℕ) (known : Option JobRecord) (pause : ℕ)
    → log_delay c requested elapsed poll known ≡ ok (some pause)
    → log_pause c (or_else c.job known) requested elapsed poll ≡ pause
unfolding log_delay
log_delay-log_pause c requested elapsed poll known pause h =
    elim (Option-cases (or_else c.job known)) [
      | inl missing ↦ rw missing (ground arith)
      | inr (r, current) ↦ rw current (ground arith)
    ]

-- A pause between log reads is the answer's Retry-After; without one it is nothing, or the poll
-- interval (at least 50 ms), which needs an answer in less than half the time asked for and
-- no progress.
pub log_read-pause :
    (c : Chunk) (requested elapsed poll : ℕ) (known : Option JobRecord) (pause : ℕ)
    → job_read_delay (log_read c) requested elapsed poll none known ≡ ok (some pause)
    → (c.retry_after ≡ some pause)
      ⊎ ((c.retry_after ≡ none)
          × ((pause ≡ 0)
              ⊎ ((pause ≡ max 50000 poll)
                  × (2 * elapsed < requested)
                  × (progressed c (or_else c.job known) ≡ false))))
unfolding job_read_delay
log_read-pause c requested elapsed poll known pause h =
    rw (log_delay-log_pause c requested elapsed poll known pause h) at
      (log_pause-cases c (or_else c.job known) requested elapsed poll)
