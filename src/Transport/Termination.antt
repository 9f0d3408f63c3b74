-- ===== src/Transport/Termination.antt =====
-- A call ends, and it ends by its deadline (src/ucloud_sandboxes_sdk/client.py,
-- `SandboxClient._request_json_response`, `_request_bytes`).
use ucloud_sandboxes_sdk.Prelude.{
  ℕ, ◌+◌, ◌-◌, ◌≤◌, ◌<◌, Option, some, ◌≡◌, ◌≢◌, arith, All, pos_part, max,
}
use ucloud_sandboxes_sdk.Errors.{ok}
use ucloud_sandboxes_sdk.Runtime.{Runtime}
use ucloud_sandboxes_sdk.Clock.{deadline, required_remaining, millisecond, request_timeout_bounds}
use ucloud_sandboxes_sdk.Transport.Loop.{
  Outcome, Exchange, Sent, Ended, out_of_fuel, finish, Call, after, sent, run,
}
use ucloud_sandboxes_sdk.Transport.Rule.{Cases, loop_rule}

early-lt :
    (d now : ℕ) (left : Option ℕ)
    → required_remaining (some d) now ≡ ok left
    → (now < d) × (left ≡ some (d - now))
unfolding required_remaining
early-lt d now left h = ground arith

module _ {A : Type 0} (py : Runtime) (call : Call A) where
  after-finish :
      (o : Outcome) (attempt jitter : ℕ) (d : Option ℕ) (now : ℕ) (e : Ended A)
      → after py call o attempt jitter d now ≡ finish e
      → e ≢ out_of_fuel
  unfolding after
  after-finish o attempt jitter d now e h = ground arith

  abbrev OnTime : ℕ → Sent → Type 0
  OnTime d s = (s.at < d) × (s.timeout ≤ max millisecond (d - s.at))

  sent-OnTime :
      (server : ℕ → Exchange) (d attempt now : ℕ) (left : Option ℕ)
      → required_remaining (some d) now ≡ ok left
      → OnTime d (sent py call server (some d) attempt now left)
  sent-OnTime server d attempt now left early =
      let (lt, e) = early-lt d now left early in
      (lt, rw e ((request_timeout_bounds (d - now) call.timeout).1))

  module _ (server : ℕ → Exchange) (d : ℕ) where
    ends :
        ((k : ℕ) → 0 < (server k).took)
        → Cases py call server (some d) (λ fuel attempt now r. d - now < fuel → r.0 ≢ out_of_fuel)
    ends positive = record {
      at_zero = λ attempt now h. absurd (omega arith);
      no_attempt = λ fuel attempt now h lt. λ e. cc;
      too_late = λ fuel attempt now e h lt. λ p. cc;
      finished = λ fuel attempt now left e early done lt. after-finish _ _ _ _ _ e done;
      repeated = λ fuel attempt now left delay r early repeat ih lt.
          ih (omega (arith, positive attempt, early-lt d now left early));
    }

    on_time : Cases py call server (some d) (λ fuel attempt now r. All (OnTime d) r.1)
    on_time = record {
      at_zero = λ attempt now. tt;
      no_attempt = λ fuel attempt now h. tt;
      too_late = λ fuel attempt now e h. tt;
      finished =
          λ fuel attempt now left e early done. (sent-OnTime server d attempt now left early, tt);
      repeated = λ fuel attempt now left delay r early repeat ih.
          (sent-OnTime server d attempt now left early, ih);
    }

  -- If every exchange takes time, a call with more fuel than its timeout in microseconds ends,
  -- with an answer or an exception, whatever the server sends.
  pub run_ends :
      (server : ℕ → Exchange) (fuel now : ℕ)
      → ((k : ℕ) → 0 < (server k).took)
      → pos_part call.timeout < fuel
      → (run py call server fuel now).0 ≢ out_of_fuel
  unfolding run deadline
  run_ends server fuel now positive enough =
      loop_rule py call server _ _ (ends server (now + pos_part call.timeout) positive) fuel 0 now
        (omega arith)

  -- Every request is sent before the deadline, with a socket timeout of at most the time that is
  -- left (or a millisecond).
  pub run-on_time :
      (server : ℕ → Exchange) (fuel now : ℕ)
      → let d = now + pos_part call.timeout in
        All
          (λ s. (s.at < d) × (s.timeout ≤ max millisecond (d - s.at)))
          (run py call server fuel now).1
  unfolding run deadline
  run-on_time server fuel now =
      loop_rule py call server _ _ (on_time server (now + pos_part call.timeout)) fuel 0 now
