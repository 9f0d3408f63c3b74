-- ===== src/Examples/Execs.antt =====
-- An exec session that ends with its second event.
use ucloud_sandboxes_sdk.Prelude.{
  ℕ, suc, ◌+◌, ◌≤◌, some, none, false, List, [], pos, is_nat, length, ◌≡◌, ◌≢◌, refl, arith,
}
use ucloud_sandboxes_sdk.Json.{Fields, end, get, arr, cons, nil, field}
use ucloud_sandboxes_sdk.Errors.{ok, err, history_lost}
use ucloud_sandboxes_sdk.Exec.State.{
  ExecState, event_payloads, next_sequence, advance, accept_session, accept_events, is_terminal,
  events_drained, take_initial, ExecResult, exec_result, joined,
}
use ucloud_sandboxes_sdk.Exec.Wait.{
  Reply, out_of_fuel, returned, fetch, wait_seconds, conclude, absorb, handle, wait_round,
  wait_loop, wait,
}
use ucloud_sandboxes_sdk.Exec.Order.{Consecutive, accept_events-Consecutive, accept_events-lost}
use ucloud_sandboxes_sdk.Exec.Loops.{IsComplete, wait-IsComplete}
use ucloud_sandboxes_sdk.Exec.Ends.{wait_ends}
use ucloud_sandboxes_sdk.Examples.Values.{python, event, events_payload}

abbrev new_state : ExecState
new_state = record { session_id = "e"; session = end; last_sequence = 0; initial_payload = none }

unfoldable accepted : List Fields × ExecState
unfolding event_payloads
accepted = elim (event_payloads (get events_payload "events")) [
  | err e ↦ ([], new_state)
  | ok es ↦ (es, record (accept_session events_payload new_state) { last_sequence = 2 })
]

accepts : accept_events events_payload new_state ≡ (ok accepted.0, accepted.1)
unfolding accepted accept_events event_payloads advance next_sequence accept_session
accepts = refl

accept_events-Consecutive_example :
    Consecutive 0 accepted.0
    × (accepted.1.last_sequence ≡ 0 + length accepted.0)
    × (accepted.1.session_id ≡ "e")
    × (accepted.1.initial_payload ≡ none)
accept_events-Consecutive_example =
    accept_events-Consecutive events_payload new_state accepted.1 accepted.0 accepts

-- The third event is the first that comes.
abbrev gap_payload : Fields
gap_payload = field "events" (arr (cons (event 3) nil)) end

loses : accept_events gap_payload new_state ≡ (err (history_lost "e" 1 (pos 3)), new_state)
unfolding accept_events event_payloads advance next_sequence
loses = refl

accept_events-lost_example :
    ("e" ≡ new_state.session_id)
    × (1 ≡ suc new_state.last_sequence)
    × (is_nat (pos 3) 1 ≡ false)
    × (0 ≤ new_state.last_sequence)
accept_events-lost_example = accept_events-lost gap_payload new_state new_state "e" 1 (pos 3) loses

abbrev replies : ℕ → Reply
replies k = record { payload = ok events_payload; took = 4 }

unfoldable result : ExecResult
result = exec_result python accepted.0 accepted.1

waits : (wait python replies (some 900) 20 1 9 new_state 10).ended ≡ returned result
unfolding result accepted accept_events event_payloads advance next_sequence accept_session
    is_terminal events_drained take_initial exec_result joined fetch wait_seconds conclude absorb
    handle wait_round wait_loop wait
waits = refl

wait-IsComplete_example : IsComplete 0 result
wait-IsComplete_example = wait-IsComplete python replies (some 900) 20 1 9 new_state 10 result waits

wait_ends_example : (wait python replies (some 900) 20 1 1000 new_state 10).ended ≢ out_of_fuel
wait_ends_example =
    wait_ends python replies 900 20 1 (λ k. omega arith) 1000 new_state 10 (omega arith)
