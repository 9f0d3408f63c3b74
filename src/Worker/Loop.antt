-- ===== src/Worker/Loop.antt =====
-- The loop of a worker, as a step relation (src/ucloud_sandboxes_sdk/relay.py: `_run_sync_worker`).
-- The requests that it hands to its executor finish at any time.
use ucloud_sandboxes_sdk.Prelude.{
  ℕ, suc, ◌+◌, ◌-◌, max, Bool, true, false, Option, none, some, List, [], ◌∷◌, ◌++◌, map, length,
  leb, ltb, if◌then◌else◌, ◌≡◌,
}
use ucloud_sandboxes_sdk.Json.{null}
use ucloud_sandboxes_sdk.Errors.{plain, Exception, api_error, invalid_answer, Result, ok, err}
use ucloud_sandboxes_sdk.Runtime.{Runtime}
use ucloud_sandboxes_sdk.Relay.Request.{Request}
use ucloud_sandboxes_sdk.Relay.Poll.{relay_error_is_retryable, relay_retry_delay}

-- A future of the executor: its request, and what `_handle_sync_request` came to.
pub record Future : Type 0 where
  pub request : Request
  pub done : Option (Result Exception (Unit {0}))

abbrev pub running : Request → Future
running r = record { request = r; done = none }

abbrev pub is_running : Future → Bool
is_running f = elim f.done [ none ↦ true | some _ ↦ false ]

abbrev pub count_running : List Future → ℕ
count_running [] = 0
count_running (f ∷ fs) = (if is_running f then 1 else 0) + count_running fs

-- `futures.difference_update(completed)`.
abbrev pub still_running : List Future → List Future
still_running [] = []
still_running (f ∷ fs) = let rest = still_running fs in if is_running f then f ∷ rest else rest

-- Whether `future.result()` raises nothing for the completed ones.
abbrev pub none_failed : List Future → Bool
none_failed [] = true
none_failed (f ∷ fs) = elim f.done [
  | none ↦ none_failed fs
  | some result ↦ elim result [ ok _ ↦ none_failed fs | err _ ↦ false ]
]

-- What the loop does after a poll failed: raise, or pause with the errors counted.
unfoldable pub after_poll_error : Runtime → ℕ → ℕ → Exception → Result Exception (ℕ × ℕ)
after_poll_error py max_errors errors (api_error e) =
    if relay_error_is_retryable e
    then if leb (max 1 max_errors) (suc errors)
      then err (api_error e)
      else ok (relay_retry_delay py e (suc errors), suc errors)
    else err (api_error e)
after_poll_error py max_errors errors e = err e

-- The futures after a poll's requests are submitted, and the reserved units that are left; or the
-- error where there are more than were asked for.
unfoldable pub submit : ℕ → List Request → List Future → Result Exception (List Future × ℕ)
submit reserved requests futures =
    if ltb reserved (length requests)
    then err (api_error (plain (invalid_answer "limit") null))
    else ok (futures ++ map running requests, reserved - length requests)

pub data Phase : Type 0 where
  -- before the test of `stop`
  looping : Phase
  -- waiting for the client's budget
  acquiring : Phase
  polling : (reserved : ℕ) → Phase
  pausing : (delay : ℕ) → Phase
  -- after the loop, waiting for the futures
  leaving : Phase
  returned : Phase
  -- the executor's shutdown waits for the futures
  raising : Exception → Phase

pub record World : Type 0 where
  pub phase : Phase
  pub poll_errors : ℕ
  pub futures : List Future
  -- the units of the client's budget that are out for this worker
  pub held : ℕ
  -- the futures that have ended and whose callback has not run
  pub to_release : ℕ
  -- every request that was submitted
  pub submitted : List Request

abbrev pub initial : World
initial = record {
  phase = looping;
  poll_errors = 0;
  futures = [];
  held = 0;
  to_release = 0;
  submitted = [];
}

module _ (py : Runtime) (max_concurrency max_errors : ℕ) where
  pub data Step : World → World → Type 0 where
    -- a future ends; its callback runs later
    finishes :
        (w : World) (before after : List Future) (r : Request)
        (result : Result Exception (Unit {0}))
        → w.futures ≡ before ++ running r ∷ after
        → Step w (record w {
          futures = before ++ record { request = r; done = some result } ∷ after;
          to_release = suc w.to_release;
        })
    -- the callback of a future that has ended releases its unit
    releases :
        (w : World)
        → ltb 0 w.to_release ≡ true
        → Step w (record w { held = w.held - 1; to_release = w.to_release - 1 })
    stops : (w : World) → w.phase ≡ looping → Step w (record w { phase = leaving })
    collects :
        (w : World)
        → w.phase ≡ looping
        → none_failed w.futures ≡ true
        → ltb 0 (max_concurrency - length (still_running w.futures)) ≡ true
        → Step w (record w { phase = acquiring; futures = still_running w.futures })
    is_full :
        (w : World)
        → w.phase ≡ looping
        → none_failed w.futures ≡ true
        → ltb 0 (max_concurrency - length (still_running w.futures)) ≡ false
        → Step w (record w { futures = still_running w.futures })
    collects_failure :
        (w : World) (before after : List Future) (r : Request) (e : Exception)
        → w.phase ≡ looping
        → w.futures ≡ before ++ record { request = r; done = some (err e) } ∷ after
        → Step w (record w { phase = raising e; futures = still_running w.futures })
    -- `acquire` gives one unit, or none once `stop` is set
    acquires :
        (w : World)
        → w.phase ≡ acquiring
        → Step w (record w { phase = polling 1; held = suc w.held })
    acquires_none : (w : World) → w.phase ≡ acquiring → Step w (record w { phase = leaving })
    polls :
        (w : World) (reserved : ℕ) (requests : List Request) (futures : List Future) (left : ℕ)
        → w.phase ≡ polling reserved
        → submit reserved requests w.futures ≡ ok (futures, left)
        → Step w (record {
          phase = looping;
          poll_errors = 0;
          futures = futures;
          held = w.held - left;
          to_release = w.to_release;
          submitted = w.submitted ++ requests;
        })
    polls_too_many :
        (w : World) (reserved : ℕ) (requests : List Request) (e : Exception)
        → w.phase ≡ polling reserved
        → submit reserved requests w.futures ≡ err e
        → Step w (record w { phase = raising e; poll_errors = 0; held = w.held - reserved })
    poll_fails :
        (w : World) (reserved delay errors : ℕ) (e : Exception)
        → w.phase ≡ polling reserved
        → after_poll_error py max_errors w.poll_errors e ≡ ok (delay, errors)
        → Step w
            (record w { phase = pausing delay; poll_errors = errors; held = w.held - reserved })
    poll_raises :
        (w : World) (reserved : ℕ) (e raised : Exception)
        → w.phase ≡ polling reserved
        → after_poll_error py max_errors w.poll_errors e ≡ err raised
        → Step w (record w { phase = raising raised; held = w.held - reserved })
    pauses :
        (w : World) (delay : ℕ) → w.phase ≡ pausing delay → Step w (record w { phase = looping })
    returns :
        (w : World)
        → w.phase ≡ leaving
        → count_running w.futures ≡ 0
        → none_failed w.futures ≡ true
        → Step w (record w { phase = returned })
    result_raises :
        (w : World) (before after : List Future) (r : Request) (e : Exception)
        → w.phase ≡ leaving
        → w.futures ≡ before ++ record { request = r; done = some (err e) } ∷ after
        → Step w (record w { phase = raising e })

  pub data Reachable : World → Type 0 where
    start : Reachable initial
    next : {v w : World} → Reachable v → Step v w → Reachable w
