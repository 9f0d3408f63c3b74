-- ===== src/Job/Wait.antt =====
-- Waiting for a job (src/ucloud_sandboxes_sdk/client.py: `JobHandle.wait`,
-- `_job_wait_request_seconds`). The status reads are a function from the read's number.
use ucloud_sandboxes_sdk.Prelude.{
  ℕ, zero, suc, ◌+◌, ◌-◌, ◌≤◌, ◌<◌, min, String, Bool, true, false, Option, none, some, leb, ◌≡◌,
  ◌≢◌, arith, Bool-cases, inl, inr, if◌then◌else◌,
}
use ucloud_sandboxes_sdk.Errors.{Exception, timeout_error, timed_out, Result, ok, err, Result-cases}
use ucloud_sandboxes_sdk.Clock.{remaining}
use ucloud_sandboxes_sdk.Transport.Loop.{Ended, returned, raised, out_of_fuel}
use ucloud_sandboxes_sdk.Job.Record.{JobRecord, terminal}
use ucloud_sandboxes_sdk.Job.Delay.{status_read, Failure, job_read_delay}

pub record StatusReply : Type 0 where
  pub status : Result Exception JobRecord
  pub took : ℕ
  -- how much longer than asked the pause after it lasts
  pub overslept : ℕ

-- `_job_wait_request_seconds`.
unfoldable pub job_wait_request : Option ℕ → ℕ → ℕ
job_wait_request d now = elim (remaining d now) [ none ↦ 20000000 | some r ↦ min 20000000 r ]

-- `job_read_delay(...) or 0.0`, and the deadline.
abbrev pub or_zero : Result Failure (Option ℕ) → ℕ
or_zero (ok (some pause)) = pause
or_zero _ = 0

abbrev pub within_deadline : Option ℕ → ℕ → ℕ → ℕ
within_deadline none now delay = delay
within_deadline (some d) now delay = min delay (d - now)

abbrev pub is_over : Option ℕ → ℕ → Bool
is_over none now = false
is_over (some d) now = leb d now

module _ (server : ℕ → StatusReply) (job_id : String) (d : Option ℕ) (poll : ℕ) where
  unfoldable pub wait_pause : JobRecord → ℕ → ℕ → ℕ → String → ℕ
  wait_pause r requested took now cursor =
      within_deadline d now
        (or_zero (job_read_delay (status_read r) requested took poll (some cursor) none))

  -- What follows a record that was read: return, time out, or pause and go on.
  unfoldable pub after_status :
      JobRecord → ℕ → ℕ → ℕ → String → (ℕ → String → Ended JobRecord) → Ended JobRecord
  after_status r requested took now cursor rest =
      if terminal r
      then returned r
      else if is_over d now
      then raised (timeout_error (timed_out job_id))
      else rest (wait_pause r requested took now cursor) r.cursor

  unfoldable pub job_wait_round : ℕ → ℕ → String → (ℕ → String → Ended JobRecord) → Ended JobRecord
  unfolding after_status
  job_wait_round read now cursor rest = elim (server read).status [
    | err e ↦ raised e
    | ok r ↦
        after_status r (job_wait_request d now) (server read).took (now + (server read).took) cursor
          rest
  ]

  -- `JobHandle.wait`, from a read on; `cursor` is `after`.
  unfoldable pub job_wait : ℕ → ℕ → ℕ → String → Ended JobRecord
  unfolding job_wait_round
  job_wait zero read now cursor = out_of_fuel
  job_wait (suc fuel) read now cursor = job_wait_round read now cursor λ pause next.
      job_wait fuel (suc read) (now + (server read).took + (pause + (server read).overslept)) next

  -- A record that `wait` returns is terminal, and the gateway's answer to one of its reads.
  pub job_wait-terminal :
      (fuel read now : ℕ) (cursor : String) (r : JobRecord)
      → job_wait fuel read now cursor ≡ returned r
      → (terminal r ≡ true) × ((k : ℕ) × (read ≤ k) × ((server k).status ≡ ok r))
  unfolding job_wait job_wait_round after_status
  job_wait-terminal zero read now cursor r h = cc
  job_wait-terminal (suc fuel) read now cursor r h = elim (Result-cases (server read).status) [
    | inl (e, lost) ↦ absurd (ground arith)
    | inr (q, got) ↦ elim (Bool-cases (terminal q)) [
      | inl over ↦
          let is : q ≡ r = ground arith in (ground arith, (read, omega arith, ground arith))
      | inr running ↦ elim (Bool-cases (is_over d (now + (server read).took))) [
        | inl late ↦ absurd (ground arith)
        | inr early ↦
            let (over, (k, after, at)) =
              job_wait-terminal fuel (suc read)
                (now
                  + (server read).took
                  + (wait_pause q (job_wait_request d now) (server read).took
                        (now + (server read).took) cursor
                      + (server read).overslept))
                q.cursor r (ground arith) in
            (over, (k, omega (arith, after), at))
      ]
    ]
  ]

-- With a deadline, if every read takes time, `wait` ends, once the fuel is past the microseconds
-- that are left.
pub job_wait_ends :
    (server : ℕ → StatusReply) (job_id : String) (d poll fuel read now : ℕ) (cursor : String)
    → ((k : ℕ) → 0 < (server k).took)
    → d - now < fuel
    → job_wait server job_id (some d) poll fuel read now cursor ≢ out_of_fuel
unfolding job_wait job_wait_round after_status
job_wait_ends server job_id d poll zero read now cursor positive h = absurd (omega arith)
job_wait_ends server job_id d poll (suc fuel) read now cursor positive h =
    elim (Result-cases (server read).status) [
      | inl (e, lost) ↦ rw (lost, job_wait_round) (λ p. cc)
      | inr (q, got) ↦ elim (Bool-cases (terminal q)) [
        | inl over ↦ rw (got, over, job_wait_round, after_status) (λ p. cc)
        | inr running ↦ elim (Bool-cases (leb d (now + (server read).took))) [
          | inl late ↦ rw (got, running, late, job_wait_round, after_status) (λ p. cc)
          | inr early ↦
              rw (got, running, early, job_wait_round, after_status)
                (job_wait_ends server job_id d poll fuel (suc read) _ q.cursor positive
                  (ground (arith, positive read)))
        ]
      ]
    ]
