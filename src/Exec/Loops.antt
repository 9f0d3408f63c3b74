-- ===== src/Exec/Loops.antt =====
-- What `ExecHandle.wait` returns, and that it ends (src/ucloud_sandboxes_sdk/client.py).
use ucloud_sandboxes_sdk.Prelude.{
  ℕ, zero, suc, ◌+◌, ◌≤◌, true, Option, List, [], ◌∷◌, ◌++◌, pos, ◌≡◌, ap, subst, sym, arith,
  length, length-append, inl, inr, Bool-cases,
}
use ucloud_sandboxes_sdk.Json.{int, Fields, get, in_texts}
use ucloud_sandboxes_sdk.Errors.{ok, err, Result-cases}
use ucloud_sandboxes_sdk.Runtime.{Runtime}
use ucloud_sandboxes_sdk.Exec.State.{
  ExecState, accept_events, is_terminal, events_drained, final_sequence, ExecResult, exec_result,
}
use ucloud_sandboxes_sdk.Exec.Wait.{
  Reply, returned, Waiting, Finish, Fetched, fetch, fails, conclude, absorb, handle, wait_round,
  wait_loop, wait, wait_seconds, is_past,
}
use ucloud_sandboxes_sdk.Exec.Order.{Consecutive, Consecutive-append, accept_events-Consecutive}

-- What a returned result holds, for a handle whose cursor stood at `start`.
pub record IsComplete (start : ℕ) (r : ExecResult) : Type 0 where
  pub in_order : Consecutive start r.events
  pub terminal : in_texts (get r.session "status") ("exited" ∷ "failed" ∷ []) ≡ true
  pub all_read :
      (final : ℕ)
      → get r.session "final_sequence" ≡ int (pos final)
      → final ≤ start + length r.events

abbrev Good : ℕ → Finish ExecResult → Type 0
Good start f = (r : ExecResult) → f.ended ≡ returned r → IsComplete start r

-- The events of the iterations so far end at the cursor.
record IsRead (start : ℕ) (w : Waiting) : Type 0 where
  in_order : Consecutive start w.events
  at_cursor : w.state.last_sequence ≡ start + length w.events

drained-final :
    (new : List Fields) (s : ExecState) (final : ℕ)
    → events_drained new s ≡ true
    → get s.session "final_sequence" ≡ int (pos final)
    → final ≤ s.last_sequence
unfolding events_drained
drained-final new s final h e = ground (arith, ap final_sequence e)

returned-injective : {A : Type 0} (a b : A) → returned a ≡ returned b → a ≡ b
returned-injective a b h = cc

exec_result-IsComplete :
    (py : Runtime) (start : ℕ) (new : List Fields) (w : Waiting)
    → IsRead start w
    → is_terminal w.state ≡ true
    → events_drained new w.state ≡ true
    → IsComplete start (exec_result py w.events w.state)
unfolding exec_result is_terminal
exec_result-IsComplete py start new w i ended done = record {
  in_order = i.in_order;
  terminal = ended;
  all_read = λ final e. omega (arith, drained-final new w.state final done e, i.at_cursor);
}

module _ (py : Runtime) (server : ℕ → Reply) (d : Option ℕ) (poll_wait settle start : ℕ) where
  conclude-Good :
      (new : List Fields) (w : Waiting) (rest : Waiting → Finish ExecResult)
      → IsRead start w
      → ((w' : Waiting) → IsRead start w' → Good start (rest w'))
      → Good start (conclude py server d poll_wait settle new w rest)
  unfolding conclude
  conclude-Good new w rest i ih = elim (Bool-cases (is_terminal w.state)) [
    | inr live ↦ rw live (ih w i)
    | inl ended ↦ elim (Bool-cases (events_drained new w.state)) [
      | inr more ↦
          rw (ended, more)
            (ih (record w { terminal_seen = true })
              (record { in_order = i.in_order; at_cursor = i.at_cursor }))
      | inl done ↦
          rw (ended, done)
            (λ r e.
              subst (IsComplete start) (returned-injective _ r e)
                (exec_result-IsComplete py start new w i ended done))
    ]
  ]

  absorb-Good :
      (payload : Fields) (f : Fetched) (w : Waiting) (rest : Waiting → Finish ExecResult)
      → IsRead start w
      → f.state.last_sequence ≡ w.state.last_sequence
      → ((w' : Waiting) → IsRead start w' → Good start (rest w'))
      → Good start (absorb py server d poll_wait settle payload f w rest)
  unfolding absorb
  absorb-Good payload f w rest i same ih = elim (Result-cases (accept_events payload f.state).0) [
    | inl (e, refused) ↦ rw (refused, absorb) (λ r p. cc)
    | inr (new, accepted) ↦
        rw (accepted, absorb) (conclude-Good new _ rest (handled new accepted) ih)
  ]
    where
      handled :
          (new : List Fields)
          → (accept_events payload f.state).0 ≡ ok new
          → IsRead start (record w {
            state = (accept_events payload f.state).1;
            events = w.events ++ new;
            now = f.now;
            answers = f.answers;
          })
      handled new accepted =
          let (order, moved, _, _) =
            accept_events-Consecutive payload f.state (accept_events payload f.state).1 new
              (ap (λ x. (x, (accept_events payload f.state).1)) accepted) in
          record {
            in_order =
                Consecutive-append start w.events new f.state.last_sequence
                  (omega (arith, i.at_cursor)) i.in_order order;
            at_cursor = omega (arith, i.at_cursor, length-append {0} w.events new);
          }

  handle-Good :
      (f : Fetched) (w : Waiting) (rest : Waiting → Finish ExecResult)
      → IsRead start w
      → f.state.last_sequence ≡ w.state.last_sequence
      → ((w' : Waiting) → IsRead start w' → Good start (rest w'))
      → Good start (handle py server d poll_wait settle f w rest)
  unfolding handle
  handle-Good f w rest i same ih = elim (Result-cases f.payload) [
    | inl (e, failed) ↦ rw (failed, handle) (λ r p. cc)
    | inr (payload, fetched) ↦
        subst
          (λ q. Good start (elim q [
            | err e ↦ fails e f.state
            | ok p ↦ absorb py server d poll_wait settle p f w rest
          ]))
          (sym fetched) (absorb-Good payload f w rest i same ih)
  ]

  fetch-last_sequence :
      (wait : ℕ) (w : Waiting) → (fetch server wait w).state.last_sequence ≡ w.state.last_sequence
  unfolding fetch
  fetch-last_sequence wait w = ground arith

  wait_round-Good :
      (w : Waiting) (rest : Waiting → Finish ExecResult)
      → IsRead start w
      → ((w' : Waiting) → IsRead start w' → Good start (rest w'))
      → Good start (wait_round py server d poll_wait settle w rest)
  unfolding wait_round
  wait_round-Good w rest i ih = elim (Bool-cases (is_past d w.now)) [
    | inl past ↦ rw past (λ r p. cc)
    | inr early ↦ rw early (
        handle-Good (fetch server (wait_seconds py server d poll_wait settle w) w) w rest i
          (fetch-last_sequence _ w) ih)
  ]

  wait_loop-Good :
      (fuel : ℕ) (w : Waiting)
      → IsRead start w
      → Good start (wait_loop py server d poll_wait settle fuel w)
  unfolding wait_loop
  wait_loop-Good zero w i = λ r p. cc
  wait_loop-Good (suc fuel) w i = wait_round-Good w _ i (λ w' i'. wait_loop-Good fuel w' i')

module _ (py : Runtime) (server : ℕ → Reply) (d : Option ℕ) (poll_wait settle : ℕ) where
  -- A result that `wait` returns holds the events after the handle's cursor one by one, with no
  -- gap and no repetition, the session is terminal, and where the session names its final
  -- sequence number, every event up to it is there.
  pub wait-IsComplete :
      (fuel : ℕ) (s : ExecState) (now : ℕ) (r : ExecResult)
      → (wait py server d poll_wait settle fuel s now).ended ≡ returned r
      → IsComplete s.last_sequence r
  unfolding wait
  wait-IsComplete fuel s now =
      wait_loop-Good py server d poll_wait settle s.last_sequence fuel _
        (record { in_order = tt; at_cursor = omega arith })
