-- ===== src/Job/Follow.antt =====
-- Following a job's log (src/ucloud_sandboxes_sdk/client.py: `JobHandle.follow`,
-- `JobHandle._follow`). What the gateway answers to the reads is a function of the read's number
-- and of the offset that it asks for.
use ucloud_sandboxes_sdk.Prelude.{
  ℕ, zero, suc, ◌≤◌, ℤ, pos_part, String, true, Option, none, some, List, [], ◌∷◌, ◌++◌, length,
  drop, drop-all, flatten, one_of, if◌then◌else◌, ◌≡◌, subst, ◌≢◌, inl, inr, refl, sym, ap, ◌∙◌,
  arith,
}
use mathlib.Core.List.{append-nil, append_assoc}
use ucloud_sandboxes_sdk.Errors.{
  Exception, value_error, invalid_argument, Result, ok, err, Result-cases,
}
use ucloud_sandboxes_sdk.Job.Record.{JobRecord, terminal}
use ucloud_sandboxes_sdk.Job.Chunk.{Chunk, needs_status}
use ucloud_sandboxes_sdk.Job.Delay.{
  Failure, exception, log_read, job_read_delay, or_else, stream_bytes, log_read-none,
}

-- The answers to a log read and to the status read that may follow it, and the time it takes.
pub record LogReply : Type 0 where
  pub chunk : Result Exception Chunk
  pub status : Result Exception JobRecord
  pub took : ℕ

pub data End : Type 0 where
  read_out : End
  failed : Failure → End
  out_of_fuel : End

-- The bytes that were yielded, the offset behind them, and how it ended.
pub record Followed : Type 0 where
  pub yielded : List (List ℕ)
  pub offset : ℕ
  pub end : End

abbrev pub ends_at : ℕ → End → Followed
ends_at offset end = record { yielded = []; offset = offset; end = end }

-- `if chunk.data: yield chunk.data`.
abbrev pub yields : List ℕ → Followed → Followed
yields [] f = f
yields (b ∷ bs) f = record f { yielded = (b ∷ bs) ∷ f.yielded }

-- The record that is known after a log read.
unfoldable pub record_of : LogReply → Chunk → Result Exception (Option JobRecord)
record_of reply c =
    if needs_status c then elim reply.status [ ok r ↦ ok (some r) | err e ↦ err e ] else ok c.job

abbrev pub read_wait : ℕ
read_wait = 20000000

module _ (server : ℕ → ℕ → LogReply) (poll : ℕ) where
  abbrev pub pause_of : LogReply → Chunk → Option JobRecord → Result Failure (Option ℕ)
  pause_of reply c known = job_read_delay (log_read c) read_wait reply.took poll none known

  -- The end of an iteration: yield, and go on from the next offset or not.
  unfoldable pub go_on : ℕ → Chunk → Result Failure (Option ℕ) → (ℕ → Followed) → Followed
  go_on offset c (err e) rest = ends_at offset (failed e)
  go_on offset c (ok none) rest = yields c.bytes (ends_at c.next_offset read_out)
  go_on offset c (ok (some pause)) rest = yields c.bytes (rest c.next_offset)

  unfoldable pub follow_chunk : LogReply → ℕ → Chunk → (ℕ → Followed) → Followed
  follow_chunk reply offset c rest = elim (record_of reply c) [
    | err e ↦ ends_at offset (failed (exception e))
    | ok known ↦ go_on offset c (pause_of reply c known) rest
  ]

  unfoldable pub follow_round : LogReply → ℕ → (ℕ → Followed) → Followed
  follow_round reply offset rest = elim reply.chunk [
    | err e ↦ ends_at offset (failed (exception e))
    | ok c ↦ follow_chunk reply offset c rest
  ]

  unfoldable pub follow_from : ℕ → ℕ → ℕ → Followed
  follow_from zero read offset = ends_at offset out_of_fuel
  follow_from (suc fuel) read offset =
      follow_round (server read offset) offset (λ next. follow_from fuel (suc read) next)

  -- `JobHandle.follow`.
  unfoldable pub follow : ℕ → String → ℤ → Result Exception Followed
  follow fuel stream offset =
      if one_of stream ("stdout" ∷ "stderr" ∷ [])
      then ok (follow_from fuel 0 (pos_part offset))
      else err (value_error (invalid_argument "stream"))

-- A gateway that serves a log: a chunk brings the log's bytes from the offset that was asked for,
-- and a record that says that the job is over counts all the log's bytes.
pub record Serves (log : List ℕ) (server : ℕ → ℕ → LogReply) : Type 0 where
  pub bytes :
      (read offset : ℕ) (c : Chunk)
      → (server read offset).chunk ≡ ok c
      → drop offset log ≡ c.bytes ++ drop c.next_offset log
  pub counted :
      (read offset : ℕ) (c : Chunk) (known : Option JobRecord) (r : JobRecord)
      → (server read offset).chunk ≡ ok c
      → record_of (server read offset) c ≡ ok known
      → or_else c.job known ≡ some r
      → terminal r ≡ true
      → length log ≤ stream_bytes r c.stream

-- What a following from an offset yields of a log.
pub record IsSlice (log : List ℕ) (offset : ℕ) (f : Followed) : Type 0 where
  pub bytes : drop offset log ≡ flatten f.yielded ++ drop f.offset log
  pub whole : f.end ≡ read_out → length log ≤ f.offset

yields-IsSlice :
    (log : List ℕ) (offset next : ℕ) (bs : List ℕ) (f : Followed)
    → drop offset log ≡ bs ++ drop next log
    → IsSlice log next f
    → IsSlice log offset (yields bs f)
yields-IsSlice log offset next [] f e s = record { bytes = e ∙ s.bytes; whole = s.whole }
yields-IsSlice log offset next (b ∷ bs) f e s = record {
  bytes =
      e
      ∙ (ap (λ l. (b ∷ bs) ++ l) s.bytes
          ∙ sym (append_assoc (b ∷ bs) (flatten f.yielded) (drop f.offset log)));
  whole = s.whole;
}

module _ (log : List ℕ) (server : ℕ → ℕ → LogReply) (poll : ℕ) (serves : Serves log server) where
  stopped : (offset : ℕ) (e : End) → e ≢ read_out → IsSlice log offset (ends_at offset e)
  stopped offset e h = record { bytes = refl; whole = λ p. absurd (h p) }

  go_on-IsSlice :
      (read offset : ℕ) (c : Chunk) (known : Option JobRecord) (rest : ℕ → Followed)
      → (server read offset).chunk ≡ ok c
      → record_of (server read offset) c ≡ ok known
      → ((next : ℕ) → IsSlice log next (rest next))
      → (pause : Result Failure (Option ℕ))
      → pause_of server poll (server read offset) c known ≡ pause
      → IsSlice log offset (go_on server poll offset c pause rest)
  unfolding go_on
  go_on-IsSlice read offset c known rest got status ih (err e) p =
      stopped offset (failed e) (λ q. cc)
  go_on-IsSlice read offset c known rest got status ih (ok none) p =
      let (r, k, _, _, over, all) =
        (log_read-none c read_wait (server read offset).took poll known).0 p in
      yields-IsSlice log offset c.next_offset c.bytes _ (serves.bytes read offset c got) (record {
        bytes = refl;
        whole = λ _. omega (arith, all, serves.counted read offset c known r got status k over);
      })
  go_on-IsSlice read offset c known rest got status ih (ok (some pause)) p =
      yields-IsSlice log offset c.next_offset c.bytes _ (serves.bytes read offset c got)
        (ih c.next_offset)

  module _ (reply : LogReply) (offset : ℕ) (rest : ℕ → Followed) where
    follow_round-chunk :
        (c : Chunk)
        → reply.chunk ≡ ok c
        → follow_round server poll reply offset rest ≡ follow_chunk server poll reply offset c rest
    unfolding follow_round follow_chunk record_of
    follow_round-chunk c got = rw (got, follow_round)

    follow_chunk-known :
        (c : Chunk) (known : Option JobRecord)
        → record_of reply c ≡ ok known
        → follow_chunk server poll reply offset c rest
          ≡ go_on server poll offset c (pause_of server poll reply c known) rest
    unfolding follow_chunk
    follow_chunk-known c known status = rw (status, follow_chunk)

    follow_chunk-lost :
        (c : Chunk) (e : Exception)
        → record_of reply c ≡ err e
        → follow_chunk server poll reply offset c rest ≡ ends_at offset (failed (exception e))
    unfolding follow_chunk
    follow_chunk-lost c e status = rw (status, follow_chunk)

  follow_chunk-IsSlice :
      (read offset : ℕ) (c : Chunk) (rest : ℕ → Followed)
      → (server read offset).chunk ≡ ok c
      → ((next : ℕ) → IsSlice log next (rest next))
      → IsSlice log offset (follow_chunk server poll (server read offset) offset c rest)
  follow_chunk-IsSlice read offset c rest got ih =
      elim (Result-cases (record_of (server read offset) c)) [
        | inl (e, lost) ↦
            subst (IsSlice log offset) (sym (follow_chunk-lost _ offset rest c e lost))
              (stopped offset (failed (exception e)) (λ q. cc))
        | inr (known, status) ↦
            subst (IsSlice log offset) (sym (follow_chunk-known _ offset rest c known status))
              (go_on-IsSlice read offset c known rest got status ih _ refl)
      ]

  follow_round-IsSlice :
      (read offset : ℕ) (rest : ℕ → Followed)
      → ((next : ℕ) → IsSlice log next (rest next))
      → IsSlice log offset (follow_round server poll (server read offset) offset rest)
  unfolding follow_round
  follow_round-IsSlice read offset rest ih = elim (Result-cases (server read offset).chunk) [
    | inl (e, lost) ↦ rw (lost, follow_round) (stopped offset (failed (exception e)) (λ q. cc))
    | inr (c, got) ↦
        subst (IsSlice log offset) (sym (follow_round-chunk _ offset rest c got))
          (follow_chunk-IsSlice read offset c rest got ih)
  ]

  follow_from-IsSlice :
      (fuel read offset : ℕ) → IsSlice log offset (follow_from server poll fuel read offset)
  unfolding follow_from
  follow_from-IsSlice zero read offset = stopped offset out_of_fuel (λ q. cc)
  follow_from-IsSlice (suc fuel) read offset =
      follow_round-IsSlice read offset _ (λ next. follow_from-IsSlice fuel (suc read) next)

  -- Against a gateway that serves a log, following from an offset yields the log's bytes from
  -- there on, in order, none lost and none twice, up to the offset that it reports; and where it
  -- ends because the log is read out, it has yielded all of them.
  pub follow-IsSlice :
      (fuel : ℕ) (stream : String) (offset : ℤ) (f : Followed)
      → follow server poll fuel stream offset ≡ ok f
      → (drop (pos_part offset) log ≡ flatten f.yielded ++ drop f.offset log)
        × (f.end ≡ read_out → flatten f.yielded ≡ drop (pos_part offset) log)
  unfolding follow
  follow-IsSlice fuel stream offset f h =
      let same : follow_from server poll fuel 0 (pos_part offset) ≡ f = ground arith in
      let s : IsSlice log (pos_part offset) f =
        subst (IsSlice log (pos_part offset)) same (follow_from-IsSlice fuel 0 (pos_part offset)) in
      (
        s.bytes,
        λ done. sym (
            s.bytes
            ∙ (ap (λ l. flatten f.yielded ++ l) (drop-all f.offset log (s.whole done))
                ∙ append-nil (flatten f.yielded))),
      )
