-- ===== src/Group/Ends.antt =====
-- A group create ends (src/ucloud_sandboxes_sdk/client.py, `SandboxClient.create_sandbox_group`).
use ucloud_sandboxes_sdk.Prelude.{ℕ, ◌+◌, ◌-◌, ◌<◌, Option, some, ℤ, pos_part, ◌≡◌, ◌≢◌, arith}
use ucloud_sandboxes_sdk.Json.{Fields}
use ucloud_sandboxes_sdk.Errors.{ok}
use ucloud_sandboxes_sdk.Runtime.{Runtime}
use ucloud_sandboxes_sdk.Clock.{deadline, required_remaining}
use ucloud_sandboxes_sdk.Group.Rule.{Cases, create_rule}
use ucloud_sandboxes_sdk.Group.Create.{State, Answer, out_of_fuel, finish, create, start}

early-lt : (d now : ℕ) (left : Option ℕ) → required_remaining (some d) now ≡ ok left → now < d
unfolding required_remaining
early-lt d now left h = ground arith

module _ (py : Runtime) (server : ℕ → Answer) (d : ℕ) where
  finish-ends :
      (payload : Fields) (s : State) → (finish py server (some d) payload s).0 ≢ out_of_fuel
  unfolding finish
  finish-ends payload s = ground arith

  ends :
      ((k : ℕ) → 0 < (server k).took)
      → Cases py server (some d) (λ fuel now s r. d - now < fuel → r.0 ≢ out_of_fuel)
  ends positive = record {
    at_zero = λ now s h. absurd (omega arith);
    late = λ fuel now s x h p. cc;
    gave_up = λ fuel now s t f h p. cc;
    finished = λ fuel now s payload got h. finish-ends payload s;
    repeated = λ fuel now s t left delay r early ih h.
        ih (omega (arith, early-lt d now left early, positive s.attempt));
  }

-- If every request takes time, a group create with more fuel than its timeout in microseconds
-- ends, whatever the gateway answers.
pub create_ends :
    (py : Runtime) (server : ℕ → Answer) (timeout : ℤ) (fuel now : ℕ)
    → ((k : ℕ) → 0 < (server k).took)
    → pos_part timeout < fuel
    → (create py server timeout fuel now).0 ≢ out_of_fuel
unfolding create deadline
create_ends py server timeout fuel now positive enough =
    create_rule py server _ _ (ends py server (now + pos_part timeout) positive) fuel now start
      (omega arith)
