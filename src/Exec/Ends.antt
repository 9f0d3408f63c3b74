-- ===== src/Exec/Ends.antt =====
-- `ExecHandle.wait` with a timeout ends (src/ucloud_sandboxes_sdk/client.py).
use ucloud_sandboxes_sdk.Prelude.{
  ℕ, zero, suc, ◌+◌, ◌-◌, ◌<◌, true, false, none, some, List, ◌≡◌, ◌≢◌, refl, ap, arith, inl, inr,
  Bool-cases,
}
use ucloud_sandboxes_sdk.Json.{Fields}
use ucloud_sandboxes_sdk.Errors.{Result-cases}
use ucloud_sandboxes_sdk.Runtime.{Runtime}
use ucloud_sandboxes_sdk.Exec.State.{
  ExecState, accept_events, is_terminal, events_drained, ExecResult,
}
use ucloud_sandboxes_sdk.Exec.Wait.{
  Reply, out_of_fuel, Waiting, Finish, Fetched, fetch, conclude, absorb, handle, wait_round,
  wait_loop, wait, wait_seconds, is_past,
}
use ucloud_sandboxes_sdk.Exec.Order.{accept_events-Consecutive}

abbrev Ends : Finish ExecResult → Type 0
Ends f = f.ended ≢ out_of_fuel

-- The microseconds left, and one more iteration for a payload that came with the start.
abbrev measure : ℕ → ExecState → ℕ → ℕ
measure d s now = (d - now) + elim s.initial_payload [ none ↦ 0 | some _ ↦ 1 ]

is_past-lt : (d now : ℕ) → is_past (some d) now ≡ false → now < d
is_past-lt d now h = ground arith

module _ (py : Runtime) (server : ℕ → Reply) (d poll_wait settle : ℕ)
    (positive : (k : ℕ) → 0 < (server k).took) where
  conclude-Ends :
      (new : List Fields) (w : Waiting) (rest : Waiting → Finish ExecResult)
      → ((w' : Waiting) → measure d w'.state w'.now ≡ measure d w.state w.now → Ends (rest w'))
      → Ends (conclude py server (some d) poll_wait settle new w rest)
  unfolding conclude
  conclude-Ends new w rest ih = elim (Bool-cases (is_terminal w.state)) [
    | inr live ↦ rw (live, conclude) (ih w refl)
    | inl ended ↦ elim (Bool-cases (events_drained new w.state)) [
      | inr more ↦ rw (ended, more, conclude) (ih (record w { terminal_seen = true }) refl)
      | inl done ↦ rw (ended, done, conclude) (λ p. cc)
    ]
  ]

  absorb-Ends :
      (payload : Fields) (f : Fetched) (w : Waiting) (rest : Waiting → Finish ExecResult)
      → ((w' : Waiting) → measure d w'.state w'.now ≡ measure d f.state f.now → Ends (rest w'))
      → Ends (absorb py server (some d) poll_wait settle payload f w rest)
  unfolding absorb
  absorb-Ends payload f w rest ih = elim (Result-cases (accept_events payload f.state).0) [
    | inl (e, refused) ↦ rw (refused, absorb) (λ p. cc)
    | inr (new, accepted) ↦
        let (_, _, _, kept) =
          accept_events-Consecutive payload f.state (accept_events payload f.state).1 new
            (ap (λ x. (x, (accept_events payload f.state).1)) accepted) in
        rw (accepted, absorb) (conclude-Ends new _ rest (λ w' same. ih w' (ground arith)))
  ]

  handle-Ends :
      (f : Fetched) (w : Waiting) (rest : Waiting → Finish ExecResult)
      → ((w' : Waiting) → measure d w'.state w'.now ≡ measure d f.state f.now → Ends (rest w'))
      → Ends (handle py server (some d) poll_wait settle f w rest)
  unfolding handle
  handle-Ends f w rest ih = elim (Result-cases f.payload) [
    | inl (e, failed) ↦ rw (failed, handle) (λ p. cc)
    | inr (payload, fetched) ↦ simp (fetched, handle) (absorb-Ends payload f w rest ih)
  ]

  measure-fetch :
      (wait : ℕ) (w : Waiting)
      → w.now < d
      → measure d (fetch server wait w).state (fetch server wait w).now < measure d w.state w.now
  unfolding fetch
  measure-fetch wait w early = ground (arith, positive w.answers)

  wait_loop-Ends :
      (fuel : ℕ) (w : Waiting)
      → measure d w.state w.now < fuel
      → Ends (wait_loop py server (some d) poll_wait settle fuel w)
  unfolding wait_loop wait_round
  wait_loop-Ends zero w h = absurd (omega arith)
  wait_loop-Ends (suc fuel) w h = elim (Bool-cases (is_past (some d) w.now)) [
    | inl past ↦ rw past (λ p. cc)
    | inr early ↦ rw early (
        handle-Ends (fetch server (wait_seconds py server (some d) poll_wait settle w) w) w
          (λ w'. wait_loop py server (some d) poll_wait settle fuel w')
          λ w' same. wait_loop-Ends fuel w' (
            omega (
              arith,
              same,
              measure-fetch (wait_seconds py server (some d) poll_wait settle w) w
                  (is_past-lt d w.now early),
            )))
  ]

  -- With a deadline, if every read takes time, `wait` ends: it returns a result or raises, once
  -- the fuel is past the microseconds left, and one more for a payload that came with the start.
  pub wait_ends :
      (fuel : ℕ) (s : ExecState) (now : ℕ)
      → (d - now) + 1 < fuel
      → (wait py server (some d) poll_wait settle fuel s now).ended ≢ out_of_fuel
  unfolding wait
  wait_ends fuel s now h = wait_loop-Ends fuel _ (ground arith)
