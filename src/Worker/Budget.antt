-- ===== src/Worker/Budget.antt =====
-- A worker's use of the client's budget (src/ucloud_sandboxes_sdk/relay.py: `_run_sync_worker`).
use ucloud_sandboxes_sdk.Prelude.{
  ℕ, ◌+◌, ◌-◌, ◌≤◌, ◌<◌, max, Bool, true, false, some, List, [], ◌∷◌, ◌++◌, map, length,
  length-append, ◌≡◌, refl, Bool-cases, inl, inr, sym, ap, ◌∙◌, arith, ltb→lt,
}
use ucloud_sandboxes_sdk.Errors.{Exception, ok}
use ucloud_sandboxes_sdk.Runtime.{Runtime}
use ucloud_sandboxes_sdk.Relay.Request.{Request}
use ucloud_sandboxes_sdk.Worker.Loop.{
  Future, running, is_running, count_running, still_running, after_poll_error, submit, Phase,
  acquiring, polling, raising, World, Step, finishes, releases, stops, collects, is_full,
  collects_failure, acquires, acquires_none, polls, polls_too_many, poll_fails, poll_raises, pauses,
  returns, result_raises, Reachable, start, next,
}

-- The units that the loop itself has reserved.
abbrev pub reserved_by : Phase → ℕ
reserved_by (polling reserved) = reserved
reserved_by _ = 0

-- The slots that a phase has promised to new requests.
abbrev promised : Phase → ℕ
promised acquiring = 1
promised (polling reserved) = reserved
promised _ = 0

abbrev is_raising : Phase → Bool
is_raising (raising _) = true
is_raising _ = false

pub count_running-append :
    (fs gs : List Future) → count_running (fs ++ gs) ≡ count_running fs + count_running gs
count_running-append [] gs = omega arith
count_running-append (f ∷ fs) gs = omega (arith, count_running-append fs gs)

count_running-map : (rs : List Request) → count_running (map running rs) ≡ length rs
count_running-map [] = refl
count_running-map (r ∷ rs) = omega (arith, count_running-map rs)

length-map : (rs : List Request) → length (map running rs) ≡ length rs
length-map [] = refl
length-map (r ∷ rs) = omega (arith, length-map rs)

still_running-counts :
    (fs : List Future)
    → (count_running (still_running fs) ≡ count_running fs)
      × (length (still_running fs) ≤ length fs)
still_running-counts [] = (refl, omega arith)
still_running-counts (f ∷ fs) =
    let (count, short) = still_running-counts fs in
    elim (Bool-cases (is_running f)) [
      | inl e ↦ rw e (rw e (omega (arith, count)), omega (arith, short))
      | inr e ↦ rw e (omega (arith, count), omega (arith, short))
    ]

submit-counts :
    (reserved : ℕ) (requests : List Request) (futures out : List Future) (left : ℕ)
    → submit reserved requests futures ≡ ok (out, left)
    → (left + length requests ≡ reserved)
      × (count_running out ≡ count_running futures + length requests)
      × (length out ≡ length futures + length requests)
unfolding submit
submit-counts reserved requests futures out left h =
    let same : futures ++ map running requests ≡ out = ground arith in
    let rest : reserved - length requests ≡ left = ground arith in
    let fits : length requests ≤ reserved = ground arith in
    (
      omega arith,
      sym (ap count_running same)
          ∙ omega (
            arith,
            count_running-append futures (map running requests),
            count_running-map requests,
          ),
      sym (ap length same)
          ∙ omega (arith, length-append futures (map running requests), length-map requests),
    )

after_poll_error-lt :
    (py : Runtime) (max_errors errors : ℕ) (e : Exception) (delay more : ℕ)
    → after_poll_error py max_errors errors e ≡ ok (delay, more)
    → more < max 1 max_errors
unfolding after_poll_error
after_poll_error-lt py max_errors errors e delay more h = ground arith

module _ (py : Runtime) (max_concurrency max_errors : ℕ) where
  pub record IsWorker (w : World) : Type 0 where
    -- what is out of the budget is reserved, of a request that runs, or to be released
    pub held : w.held ≡ reserved_by w.phase + count_running w.futures + w.to_release
    pub concurrency : length w.futures + promised w.phase ≤ max_concurrency
    pub errors : w.poll_errors < max 1 max_errors

  step-IsWorker : {v w : World} → Step py max_concurrency max_errors v w → IsWorker v → IsWorker w
  step-IsWorker (finishes w before after r result at) h =
      let out : Future = record { request = r; done = some result } in
      record {
        held = omega (
          arith,
          h.held,
          ap count_running at,
          count_running-append before (running r ∷ after),
          count_running-append before (out ∷ after),
        );
        concurrency = omega (
          arith,
          h.concurrency,
          ap length at,
          length-append before (running r ∷ after),
          length-append before (out ∷ after),
        );
        errors = h.errors;
      }
  step-IsWorker (releases w some_left) h = record {
    held = omega (arith, h.held, ltb→lt _ _ some_left);
    concurrency = h.concurrency;
    errors = h.errors;
  }
  step-IsWorker (stops w at) h = record {
    held = omega (arith, h.held, ap reserved_by at);
    concurrency = omega (arith, h.concurrency, ap promised at);
    errors = h.errors;
  }
  step-IsWorker (collects w at none_failed room) h =
      let (count, short) = still_running-counts w.futures in
      record {
        held = omega (arith, h.held, ap reserved_by at, count);
        concurrency = omega (arith, ltb→lt _ _ room);
        errors = h.errors;
      }
  step-IsWorker (is_full w at none_failed no_room) h =
      let (count, short) = still_running-counts w.futures in
      record {
        held = omega (arith, h.held, count);
        concurrency = omega (arith, h.concurrency, short);
        errors = h.errors;
      }
  step-IsWorker (collects_failure w before after r e at failed) h =
      let (count, short) = still_running-counts w.futures in
      record {
        held = omega (arith, h.held, ap reserved_by at, count);
        concurrency = omega (arith, h.concurrency, ap promised at, short);
        errors = h.errors;
      }
  step-IsWorker (acquires w at) h = record {
    held = omega (arith, h.held, ap reserved_by at);
    concurrency = omega (arith, h.concurrency, ap promised at);
    errors = h.errors;
  }
  step-IsWorker (acquires_none w at) h = record {
    held = omega (arith, h.held, ap reserved_by at);
    concurrency = omega (arith, h.concurrency, ap promised at);
    errors = h.errors;
  }
  step-IsWorker (polls w reserved requests futures left at submitted) h =
      let (units, count, total) =
        submit-counts reserved requests w.futures futures left submitted in
      record {
        held = omega (arith, h.held, ap reserved_by at, units, count);
        concurrency = omega (arith, h.concurrency, ap promised at, units, total);
        errors = omega arith;
      }
  step-IsWorker (polls_too_many w reserved requests e at refused) h = record {
    held = omega (arith, h.held, ap reserved_by at);
    concurrency = omega (arith, h.concurrency, ap promised at);
    errors = omega arith;
  }
  step-IsWorker (poll_fails w reserved delay errors e at decided) h = record {
    held = omega (arith, h.held, ap reserved_by at);
    concurrency = omega (arith, h.concurrency, ap promised at);
    errors = after_poll_error-lt py max_errors w.poll_errors e delay errors decided;
  }
  step-IsWorker (poll_raises w reserved e raised at decided) h = record {
    held = omega (arith, h.held, ap reserved_by at);
    concurrency = omega (arith, h.concurrency, ap promised at);
    errors = h.errors;
  }
  step-IsWorker (pauses w delay at) h = record {
    held = omega (arith, h.held, ap reserved_by at);
    concurrency = omega (arith, h.concurrency, ap promised at);
    errors = h.errors;
  }
  step-IsWorker (returns w at ended none_failed) h = record {
    held = omega (arith, h.held, ap reserved_by at);
    concurrency = omega (arith, h.concurrency, ap promised at);
    errors = h.errors;
  }
  step-IsWorker (result_raises w before after r e at failed) h = record {
    held = omega (arith, h.held, ap reserved_by at);
    concurrency = omega (arith, h.concurrency, ap promised at);
    errors = h.errors;
  }

  -- Whatever happens to the polls and the requests, the units of the budget that a worker has are the
  -- one that it reserved for its next poll, one for each request that runs, and one for each that has
  -- ended and whose callback has yet to release it; it has at most `max_concurrency` requests; and the errors in a row that it
  -- polls after stay below their bound.
  pub reachable-IsWorker : {w : World} → Reachable py max_concurrency max_errors w → IsWorker w
  reachable-IsWorker start = record {
    held = omega arith;
    concurrency = omega arith;
    errors = omega arith;
  }
  reachable-IsWorker (next r s) = step-IsWorker s (reachable-IsWorker r)
