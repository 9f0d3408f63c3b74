-- ===== src/Exec/Wait.antt =====
-- Reading a session to its end (src/ucloud_sandboxes_sdk/client.py: `ExecHandle.wait`,
-- `ExecHandle.events`, `_exec_event_wait_seconds`). The gateway's answers are a sequence.
use ucloud_sandboxes_sdk.Prelude.{
  ℕ, zero, suc, ◌+◌, ◌-◌, ◌*◌, ◌/◌, min, Bool, true, false, Option, none, some, List, [], ◌∷◌, ◌++◌,
  ℤ, pos_part, leb, if◌then◌else◌,
}
use ucloud_sandboxes_sdk.Json.{Fields}
use ucloud_sandboxes_sdk.Errors.{Exception, timeout_error, timed_out, Result, ok, err}
use ucloud_sandboxes_sdk.Runtime.{Runtime}
use ucloud_sandboxes_sdk.Exec.State.{
  ExecState, accept_events, take_initial, is_terminal, events_drained, ExecResult, exec_result,
}

-- `max(0.0, requested)`, else 80% of the client's timeout and at most 20 seconds.
unfoldable pub event_wait : ℤ → Option ℤ → ℕ
event_wait timeout (some requested) = pos_part requested
event_wait timeout none = min 20000000 (pos_part timeout * 4 / 5)

-- What `read_exec_events` answers, and the microseconds that it takes.
pub record Reply : Type 0 where
  pub payload : Result Exception Fields
  pub took : ℕ

-- A call of `read_exec_events`.
pub record Read : Type 0 where
  pub after : ℕ
  pub wait : ℕ

pub data Ended (A : Type 0) : Type 0 where
  returned : A → Ended A
  raised : Exception → Ended A
  out_of_fuel : Ended A

-- The variables of the loop.
pub record Waiting : Type 0 where
  pub state : ExecState
  pub events : List Fields
  pub terminal_seen : Bool
  pub now : ℕ
  -- the answers read so far
  pub answers : ℕ

pub record Finish (A : Type 0) : Type 0 where
  pub ended : Ended A
  pub state : ExecState
  pub reads : List Read

abbrev pub fails : {A : Type 0} → Exception → ExecState → Finish A
fails e s = record { ended = raised e; state = s; reads = [] }

-- The payload that an iteration handles, the state and the time after it, and the read that it made.
pub record Fetched : Type 0 where
  pub payload : Result Exception Fields
  pub state : ExecState
  pub now : ℕ
  pub answers : ℕ
  pub reads : List Read

unfoldable pub fetch : (ℕ → Reply) → ℕ → Waiting → Fetched
unfolding take_initial
fetch server wait w =
    let (initial, s) = take_initial w.state in
    elim initial [
      | some payload ↦ record {
        payload = ok payload;
        state = s;
        now = w.now;
        answers = w.answers;
        reads = [];
      }
      | none ↦ record {
        payload = (server w.answers).payload;
        state = s;
        now = w.now + (server w.answers).took;
        answers = suc w.answers;
        reads = record { after = s.last_sequence; wait = wait } ∷ [];
      }
    ]

abbrev pub with_reads : {A : Type 0} → List Read → Finish A → Finish A
with_reads reads f = record f { reads = reads ++ f.reads }

-- `deadline is not None and time.monotonic() >= deadline`.
abbrev pub is_past : Option ℕ → ℕ → Bool
is_past none now = false
is_past (some d) now = leb d now

module _ (py : Runtime) (server : ℕ → Reply) (d : Option ℕ) (poll_wait settle : ℕ) where
  unfoldable pub wait_seconds : Waiting → ℕ
  wait_seconds w =
      let wait = if w.terminal_seen then settle else poll_wait in
      elim d [ none ↦ wait | some d ↦ min wait (d - w.now) ]

  -- What an iteration of `wait` does with the events that it accepted: return, or go on.
  unfoldable pub conclude :
      List Fields → Waiting → (Waiting → Finish ExecResult) → Finish ExecResult
  conclude new w rest =
      if is_terminal w.state
      then if events_drained new w.state
        then record {
          ended = returned (exec_result py w.events w.state);
          state = w.state;
          reads = [];
        }
        else rest (record w { terminal_seen = true })
      else rest w

  -- `_accept_events`, `events.extend`, and the rest of the iteration, of a payload that came.
  unfoldable pub absorb :
      Fields → Fetched → Waiting → (Waiting → Finish ExecResult) → Finish ExecResult
  unfolding conclude
  absorb payload f w rest =
      let (accepted, s) = accept_events payload f.state in
      elim accepted [
        | err e ↦ fails e s
        | ok new ↦
            conclude new
              (record w { state = s; events = w.events ++ new; now = f.now; answers = f.answers })
              rest
      ]

  unfoldable pub handle : Fetched → Waiting → (Waiting → Finish ExecResult) → Finish ExecResult
  handle f w rest = elim f.payload [
    | err e ↦ fails e f.state
    | ok payload ↦ absorb payload f w rest
  ]

  unfoldable pub wait_round : Waiting → (Waiting → Finish ExecResult) → Finish ExecResult
  unfolding fetch wait_seconds handle absorb
  wait_round w rest =
      if is_past d w.now
      then fails (timeout_error (timed_out w.state.session_id)) w.state
      else let f = fetch server (wait_seconds w) w in with_reads f.reads (handle f w rest)

  unfoldable pub wait_loop : ℕ → Waiting → Finish ExecResult
  wait_loop zero w = record { ended = out_of_fuel; state = w.state; reads = [] }
  wait_loop (suc fuel) w = wait_round w (λ w'. wait_loop fuel w')

  -- `ExecHandle.wait`, from the handle's state, at a time.
  unfoldable pub wait : ℕ → ExecState → ℕ → Finish ExecResult
  wait fuel s now =
      wait_loop fuel
        (record { state = s; events = []; terminal_seen = false; now = now; answers = 0 })
