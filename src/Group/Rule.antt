-- ===== src/Group/Rule.antt =====
-- Induction over the requests of one group create.
use ucloud_sandboxes_sdk.Prelude.{ℕ, zero, suc, ◌+◌, Option, ◌≡◌, refl, sym, subst, ◌⊎◌, inl, inr}
use ucloud_sandboxes_sdk.Json.{Fields}
use ucloud_sandboxes_sdk.Errors.{Exception, api_error, Result, ok, err, Result-cases}
use ucloud_sandboxes_sdk.Runtime.{Runtime}
use ucloud_sandboxes_sdk.Clock.{required_remaining}
use ucloud_sandboxes_sdk.Group.Create.{
  State, Failure, exception, Answer, Ended, failed, out_of_fuel, finish, conclude, create_round,
  create_loop, group_retry_delay,
}

module _ (py : Runtime) (server : ℕ → Answer) (d : Option ℕ) where
  -- The time at which the next request starts.
  abbrev pub next_time : ℕ → State → ℕ → ℕ
  next_time now s delay = now + (server s.attempt).took + (delay + (server s.attempt).overslept)

  module _ (jitter now : ℕ) (s : State) (rest : ℕ → State → Ended × State) where
    conclude-cases :
        (outcome : Result Exception Fields)
        → ((payload : Fields) × (outcome ≡ ok payload)
            × (conclude py server d outcome jitter now s rest ≡ finish py server d payload s))
          ⊎ (((f : Failure) × (t : State) × (conclude py server d outcome jitter now s rest
                  ≡ (failed f, t)))
              ⊎ ((delay : ℕ) × (t : State) × (conclude py server d outcome jitter now s rest
                    ≡ rest delay t)))
    unfolding conclude
    conclude-cases (ok payload) = inl (payload, refl, refl)
    conclude-cases (err (api_error e)) =
        let t = (group_retry_delay py e s jitter d now).1 in
        elim (Result-cases (group_retry_delay py e s jitter d now).0) [
          | inl (f, refused) ↦ inr (inl (f, t, rw (refused, conclude) refl))
          | inr (delay, allowed) ↦ inr (inr (delay, t, rw (allowed, conclude) refl))
        ]
    conclude-cases (err x) = inr (inl (exception x, s, refl))

  module _ (P : ℕ → ℕ → State → Ended × State → Type 0) where
    -- One case for each way in which a request can go.
    pub record Cases : Type 0 where
      pub at_zero : (now : ℕ) (s : State) → P zero now s (out_of_fuel, s)
      pub late :
          (fuel now : ℕ) (s : State) (x : Exception) → P (suc fuel) now s (failed (exception x), s)
      pub gave_up : (fuel now : ℕ) (s t : State) (f : Failure) → P (suc fuel) now s (failed f, t)
      pub finished :
          (fuel now : ℕ) (s : State) (payload : Fields)
          → (server s.attempt).outcome ≡ ok payload
          → P (suc fuel) now s (finish py server d payload s)
      pub repeated :
          (fuel now : ℕ) (s t : State) (left : Option ℕ) (delay : ℕ) (r : Ended × State)
          → required_remaining d now ≡ ok left
          → P fuel (next_time now s delay) t r
          → P (suc fuel) now s r

    round_rule :
        Cases
        → (fuel now : ℕ) (s : State) (rest : ℕ → State → Ended × State)
        → ((delay : ℕ) (t : State) → P fuel (next_time now s delay) t (rest delay t))
        → P (suc fuel) now s (create_round py server d now s rest)
    unfolding create_round
    round_rule c fuel now s rest ih = elim (Result-cases (required_remaining d now)) [
      | inl (x, too_late) ↦ rw (too_late, create_round) (c.late fuel now s x)
      | inr (left, early) ↦
          rw (early, create_round)
            (elim (conclude-cases (server s.attempt).jitter (now + (server s.attempt).took) s rest
              (server s.attempt).outcome) [
                | inl (payload, got, e) ↦
                    subst (P (suc fuel) now s) (sym e) (c.finished fuel now s payload got)
                | inr (inl (f, t, e)) ↦
                    subst (P (suc fuel) now s) (sym e) (c.gave_up fuel now s t f)
                | inr (inr (delay, t, e)) ↦
                    subst (P (suc fuel) now s) (sym e)
                      (c.repeated fuel now s t left delay (rest delay t) early (ih delay t))
              ])
    ]

    pub create_rule :
        Cases → (fuel now : ℕ) (s : State) → P fuel now s (create_loop py server d fuel now s)
    unfolding create_loop
    create_rule c zero now s = c.at_zero now s
    create_rule c (suc fuel) now s =
        round_rule c fuel now s _ (λ delay t. create_rule c fuel (next_time now s delay) t)
