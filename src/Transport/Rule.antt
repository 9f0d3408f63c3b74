-- ===== src/Transport/Rule.antt =====
-- Induction over the attempts of one call.
use ucloud_sandboxes_sdk.Prelude.{
  ℕ, zero, suc, ◌+◌, false, Option, List, [], ◌∷◌, ◌≡◌, refl, ◌⊎◌, inl, inr, Bool-cases,
}
use ucloud_sandboxes_sdk.Errors.{Result-cases, Exception, assertion_error, unreachable, ok, err}
use ucloud_sandboxes_sdk.Runtime.{Runtime}
use ucloud_sandboxes_sdk.Clock.{required_remaining}
use ucloud_sandboxes_sdk.Transport.Loop.{
  Exchange, Sent, Ended, out_of_fuel, raised, Verdict, finish, again, Call, has_attempt, sent,
  later, verdict, round, loop,
}

Verdict-cases :
    {A : Type 0} (v : Verdict A)
    → ((e : Ended A) × (v ≡ finish e)) ⊎ ((delay : ℕ) × (v ≡ again delay))
Verdict-cases (finish e) = inl (e, refl)
Verdict-cases (again delay) = inr (delay, refl)

module _ {A : Type 0} (py : Runtime) (call : Call A) (server : ℕ → Exchange) (d : Option ℕ)
    (P : ℕ → ℕ → ℕ → Ended A × List Sent → Type 0) where
  -- One case for each way in which an attempt can go.
  pub record Cases : Type 0 where
    pub at_zero : (attempt now : ℕ) → P zero attempt now (out_of_fuel, [])
    pub no_attempt :
        (fuel attempt now : ℕ)
        → has_attempt py call attempt ≡ false
        → P (suc fuel) attempt now (raised (assertion_error unreachable), [])
    pub too_late :
        (fuel attempt now : ℕ) (e : Exception)
        → required_remaining d now ≡ err e
        → P (suc fuel) attempt now (raised (call.expired e), [])
    pub finished :
        (fuel attempt now : ℕ) (left : Option ℕ) (e : Ended A)
        → required_remaining d now ≡ ok left
        → verdict py call server d attempt now ≡ finish e
        → P (suc fuel) attempt now (e, sent py call server d attempt now left ∷ [])
    pub repeated :
        (fuel attempt now : ℕ) (left : Option ℕ) (delay : ℕ) (r : Ended A × List Sent)
        → required_remaining d now ≡ ok left
        → verdict py call server d attempt now ≡ again delay
        → P fuel
            (suc attempt)
            (later py call server d attempt now + (delay + (server attempt).overslept))
            r
        → P (suc fuel) attempt now (r.0, sent py call server d attempt now left ∷ r.1)

  round_rule :
      Cases
      → (fuel attempt now : ℕ) (rest : ℕ → Ended A × List Sent)
      → ((delay : ℕ)
          → P fuel
              (suc attempt)
              (later py call server d attempt now + (delay + (server attempt).overslept))
              (rest delay))
      → P (suc fuel) attempt now (round py call server d attempt now rest)
  unfolding round
  round_rule c fuel attempt now rest ih = elim (Bool-cases (has_attempt py call attempt)) [
    | inr no_more ↦ rw no_more (c.no_attempt fuel attempt now no_more)
    | inl more ↦ elim (Result-cases (required_remaining d now)) [
      | inl (e, late) ↦ rw (more, late) (c.too_late fuel attempt now e late)
      | inr (left, early) ↦ elim (Verdict-cases (verdict py call server d attempt now)) [
        | inl (e, done) ↦ rw (more, early, done) (c.finished fuel attempt now left e early done)
        | inr (delay, repeat) ↦
            rw (more, early, repeat)
              (c.repeated fuel attempt now left delay (rest delay) early repeat (ih delay))
      ]
    ]
  ]

  pub loop_rule :
      Cases → (fuel attempt now : ℕ) → P fuel attempt now (loop py call server d fuel attempt now)
  unfolding loop
  loop_rule c zero attempt now = c.at_zero attempt now
  loop_rule c (suc fuel) attempt now = round_rule c fuel attempt now _ λ delay.
      loop_rule c fuel (suc attempt)
        (later py call server d attempt now + (delay + (server attempt).overslept))
