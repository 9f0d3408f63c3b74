-- ===== src/Build/Loop.antt =====
-- `SandboxClient.wait_for_image_build` (src/ucloud_sandboxes_sdk/client.py). The polls are a function
-- from the poll's number.
use ucloud_sandboxes_sdk.Prelude.{
  ℕ, zero, suc, ◌+◌, ◌-◌, ◌<◌, String, Bool, true, false, Option, none, some, ◌≡◌, ◌≢◌, arith,
  Bool-cases, inl, inr, if◌then◌else◌,
}
use ucloud_sandboxes_sdk.Json.{Fields}
use ucloud_sandboxes_sdk.Errors.{Exception, api_error, timeout_error, Result, ok, err, Result-cases}
use ucloud_sandboxes_sdk.Runtime.{Runtime}
use ucloud_sandboxes_sdk.Clock.{remaining}
use ucloud_sandboxes_sdk.Transport.Loop.{Ended, returned, raised, out_of_fuel}
use ucloud_sandboxes_sdk.Build.State.{
  BuildState, is_done, accept_build, build_remaining, build_pause, build_retry_delay,
}

pub record Poll : Type 0 where
  pub outcome : Result Exception Fields
  pub took : ℕ
  pub jitter : ℕ
  pub overslept : ℕ

-- `except (SandboxApiError, OSError)`: a `TimeoutError` is an `OSError`.
abbrev pub is_caught : Exception → Bool
is_caught (api_error _) = true
is_caught (timeout_error _) = true
is_caught _ = false

module _ (py : Runtime) (server : ℕ → Poll) (build_id : String) (d : Option ℕ) (poll : ℕ) where
  abbrev pub Rest : Type 0
  Rest = ℕ → BuildState → Ended Fields

  -- After a build was read.
  unfoldable pub after_build : Fields → ℕ → BuildState → Rest → Ended Fields
  unfolding accept_build
  after_build build now s rest =
      let (done, t) = accept_build py build s in
      if done
      then returned build
      else elim (build_pause build_id d now poll) [ err x ↦ raised x | ok pause ↦ rest pause t ]

  abbrev repeat_or : Exception → Result Exception (Option ℕ) → BuildState → Rest → Ended Fields
  repeat_or e (err x) t rest = raised x
  repeat_or e (ok none) t rest = raised e
  repeat_or e (ok (some delay)) t rest = rest delay t

  -- After an exception.
  unfoldable pub after_failure : Exception → ℕ → ℕ → BuildState → Rest → Ended Fields
  unfolding build_retry_delay
  after_failure e jitter now s rest =
      let (r, t) = build_retry_delay py build_id d e s jitter now in
      if is_caught e then repeat_or e r t rest else raised e

  unfoldable pub poll_round : ℕ → ℕ → BuildState → Rest → Ended Fields
  unfolding after_build after_failure
  poll_round k now s rest = elim (build_remaining build_id d now) [
    | err x ↦ raised x
    | ok left ↦ elim (server k).outcome [
      | err e ↦ after_failure e (server k).jitter (now + (server k).took) s rest
      | ok build ↦ after_build build (now + (server k).took) s rest
    ]
  ]

  unfoldable pub wait_image_build : ℕ → ℕ → ℕ → BuildState → Ended Fields
  wait_image_build zero k now s = out_of_fuel
  wait_image_build (suc fuel) k now s = poll_round k now s λ pause t.
      wait_image_build fuel (suc k) (now + (server k).took + (pause + (server k).overslept)) t

  module _ (k now : ℕ) (s : BuildState) (rest : Rest) (P : Ended Fields → Type 0)
      (raises : (x : Exception) → P (raised x))
      (goes_on : (pause : ℕ) (t : BuildState) → P (rest pause t)) where
    after_failure-rule : (e : Exception) (jitter at : ℕ) → P (after_failure e jitter at s rest)
    unfolding after_failure
    after_failure-rule e jitter at = elim (Bool-cases (is_caught e)) [
      | inr passed_on ↦ rw (passed_on, after_failure) (raises e)
      | inl caught ↦
          rw (caught, after_failure)
            (cases (build_retry_delay py build_id d e s jitter at).0
              (build_retry_delay py build_id d e s jitter at).1)
    ]
      where
        cases : (r : Result Exception (Option ℕ)) (t : BuildState) → P (repeat_or e r t rest)
        cases (err x) t = raises x
        cases (ok none) t = raises e
        cases (ok (some delay)) t = goes_on delay t

    after_build-rule :
        ((build : Fields)
          → (server k).outcome ≡ ok build
          → is_done build ≡ true
          → P (returned build))
        → (build : Fields) → (server k).outcome ≡ ok build
        → (at : ℕ) → P (after_build build at s rest)
    unfolding after_build accept_build
    after_build-rule returns build got at = elim (Bool-cases (is_done build)) [
      | inl done ↦ rw (done, after_build) (returns build got done)
      | inr running ↦ elim (Result-cases (build_pause build_id d at poll)) [
        | inl (x, late) ↦ rw (running, late, after_build) (raises x)
        | inr (pause, early) ↦ rw (running, early, after_build) (goes_on pause _)
      ]
    ]

    poll_round-rule :
        ((build : Fields)
          → (server k).outcome ≡ ok build
          → is_done build ≡ true
          → P (returned build))
        → P (poll_round k now s rest)
    unfolding poll_round
    poll_round-rule returns = elim (Result-cases (build_remaining build_id d now)) [
      | inl (x, late) ↦ rw (late, poll_round) (raises x)
      | inr (left, early) ↦ elim (Result-cases (server k).outcome) [
        | inl (e, failed) ↦ rw (early, failed, poll_round) (after_failure-rule e _ _)
        | inr (build, got) ↦ rw (early, got, poll_round) (after_build-rule returns build got _)
      ]
    ]

  -- A build that the wait returns has succeeded or failed, and is what the gateway answered to one
  -- of the polls.
  pub wait_image_build-is_done :
      (fuel k now : ℕ) (s : BuildState) (build : Fields)
      → wait_image_build fuel k now s ≡ returned build
      → (is_done build ≡ true) × ((j : ℕ) × ((server j).outcome ≡ ok build))
  unfolding wait_image_build
  wait_image_build-is_done zero k now s build = λ h. cc
  wait_image_build-is_done (suc fuel) k now s build =
      poll_round-rule k now s _
        (λ r.
          r ≡ returned build → (is_done build ≡ true) × ((j : ℕ) × ((server j).outcome ≡ ok build)))
        (λ x p. cc) (λ pause t p. wait_image_build-is_done fuel (suc k) _ t build p)
        (λ b got done p. let e : b ≡ build = cc in rw⁻¹ e (done, (k, got)))

remaining-early :
    (build_id : String) (d now : ℕ) (left : Option ℕ)
    → build_remaining build_id (some d) now ≡ ok left
    → now < d
unfolding build_remaining remaining
remaining-early build_id d now left h = ground arith

-- With a deadline, if every poll takes time, the wait ends, once the fuel is past the microseconds
-- that are left.
pub wait_image_build_ends :
    (py : Runtime) (server : ℕ → Poll) (build_id : String) (d poll fuel k now : ℕ) (s : BuildState)
    → ((k : ℕ) → 0 < (server k).took)
    → d - now < fuel
    → wait_image_build py server build_id (some d) poll fuel k now s ≢ out_of_fuel
unfolding wait_image_build poll_round
wait_image_build_ends py server build_id d poll zero k now s positive h = absurd (omega arith)
wait_image_build_ends py server build_id d poll (suc fuel) k now s positive h =
    elim (Result-cases (build_remaining build_id (some d) now)) [
      | inl (x, late) ↦ rw (late, poll_round) (λ p. cc)
      | inr (left, early) ↦
          poll_round-rule py server build_id (some d) poll k now s _ (λ r. r ≢ out_of_fuel)
            (λ x p. cc)
            (λ pause t.
              wait_image_build_ends py server build_id d poll fuel (suc k)
                (now + (server k).took + (pause + (server k).overslept)) t positive
                (omega (arith, positive k, remaining-early build_id d now left early)))
            (λ build got done p. cc)
    ]
