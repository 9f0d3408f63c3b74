-- ===== src/Worker/Drain.antt =====
-- The end of a worker (src/ucloud_sandboxes_sdk/relay.py: `_run_sync_worker`).
use ucloud_sandboxes_sdk.Prelude.{
  ℕ, zero, suc, ◌+◌, ◌*◌, ltb→lt, ◌⊎◌, Bool, true, false, some, List, [], ◌∷◌, ◌++◌, ◌≡◌, refl, ap,
  arith, inl, inr, Bool-cases, Option-cases,
}
use ucloud_sandboxes_sdk.Errors.{Exception, ok, err}
use ucloud_sandboxes_sdk.Runtime.{Runtime}
use ucloud_sandboxes_sdk.Relay.Request.{Request}
use ucloud_sandboxes_sdk.Worker.Loop.{
  Future, running, count_running, none_failed, Phase, looping, acquiring, polling, pausing, leaving,
  returned, raising, World, Step, finishes, releases, stops, collects, is_full, collects_failure,
  acquires, acquires_none, polls, polls_too_many, poll_fails, poll_raises, pauses, returns,
  result_raises, Reachable, next,
}
use ucloud_sandboxes_sdk.Worker.Budget.{reachable-IsWorker, count_running-append, reserved_by}

abbrev pub has_ended : Phase → Bool
has_ended returned = true
has_ended (raising _) = true
has_ended _ = false

-- Whether the worker is out of its loop.
abbrev pub has_left : Phase → Bool
has_left leaving = true
has_left p = has_ended p

abbrev pub open_end : Phase → ℕ
open_end leaving = 1
open_end _ = 0

in_loop : {b : Bool} → b ≡ true → b ≡ false → ⊥
in_loop h k = cc

left-cases :
    (p : Phase) → has_left p ≡ true → (p ≡ leaving) ⊎ ((has_ended p ≡ true) × (reserved_by p ≡ 0))
left-cases leaving h = inl refl
left-cases returned h = inr (refl, refl)
left-cases (raising e) h = inr (refl, refl)
left-cases looping h = cc
left-cases acquiring h = cc
left-cases (polling reserved) h = cc
left-cases (pausing delay) h = cc

abbrev failed_with : Request → Exception → Future
failed_with r e = record { request = r; done = some (err e) }

split_running :
    (fs : List Future) (k : ℕ)
    → count_running fs ≡ suc k
    → (before : List Future) × (r : Request) × (after : List Future) × (fs
        ≡ before ++ running r ∷ after)
split_running [] k h = absurd (omega (arith, h))
split_running (f ∷ fs) k h = elim (Option-cases f.done) [
  | inl e ↦ ([], f.request, fs, ap (λ d. record { request = f.request; done = d } ∷ fs) e)
  | inr (result, e) ↦
      let later : count_running fs ≡ suc k = ground arith in
      let (before, r, after, same) = split_running fs k later in
      (f ∷ before, r, after, ap (λ t. f ∷ t) same)
]

split_failed :
    (fs : List Future)
    → none_failed fs ≡ false
    → (before : List Future) × (r : Request) × (e : Exception) × (after : List Future) × (fs
        ≡ before ++ failed_with r e ∷ after)
split_failed [] h = cc
split_failed (f ∷ fs) h = elim (Option-cases f.done) [
  | inl e ↦
      let (before, r, x, after, same) = split_failed fs (ground arith) in
      (f ∷ before, r, x, after, ap (λ t. f ∷ t) same)
  | inr (ok u, e) ↦
      let (before, r, x, after, same) = split_failed fs (ground arith) in
      (f ∷ before, r, x, after, ap (λ t. f ∷ t) same)
  | inr (err x, e) ↦
      ([], f.request, x, fs, ap (λ d. record { request = f.request; done = d } ∷ fs) e)
]

module _ (py : Runtime) (max_concurrency max_errors : ℕ) where
  -- That many steps.
  pub data Run : ℕ → World → World → Type 0 where
    here : {w : World} → Run 0 w w
    then_step :
        {n : ℕ} {u v w : World}
        → Step py max_concurrency max_errors u v
        → Run n v w
        → Run (suc n) u w

  -- Two steps for each request that runs, one for each callback, and one to return or raise.
  abbrev pub left_to_do : World → ℕ
  left_to_do w = 2 * count_running w.futures + w.to_release + open_end w.phase

  step_leaves :
      {v w : World}
      → Step py max_concurrency max_errors v w
      → has_left v.phase ≡ true
      → (has_left w.phase ≡ true) × (suc (left_to_do w) ≡ left_to_do v)
  step_leaves (finishes w before after r result at) h =
      let out : Future = record { request = r; done = some result } in
      (
        h,
        omega (
          arith,
          ap count_running at,
          count_running-append before (running r ∷ after),
          count_running-append before (out ∷ after),
        ),
      )
  step_leaves (releases w some_left) h = (h, omega (arith, ltb→lt _ _ some_left))
  step_leaves (stops w at) h = absurd (in_loop h (ap has_left at))
  step_leaves (collects w at none_failed room) h = absurd (in_loop h (ap has_left at))
  step_leaves (is_full w at none_failed no_room) h = absurd (in_loop h (ap has_left at))
  step_leaves (collects_failure w before after r e at failed) h =
      absurd (in_loop h (ap has_left at))
  step_leaves (acquires w at) h = absurd (in_loop h (ap has_left at))
  step_leaves (acquires_none w at) h = absurd (in_loop h (ap has_left at))
  step_leaves (polls w reserved requests futures left at submitted) h =
      absurd (in_loop h (ap has_left at))
  step_leaves (polls_too_many w reserved requests e at refused) h =
      absurd (in_loop h (ap has_left at))
  step_leaves (poll_fails w reserved delay errors e at decided) h =
      absurd (in_loop h (ap has_left at))
  step_leaves (poll_raises w reserved e raised at decided) h = absurd (in_loop h (ap has_left at))
  step_leaves (pauses w delay at) h = absurd (in_loop h (ap has_left at))
  step_leaves (returns w at ended none_failed) h = (refl, omega (arith, ap open_end at))
  step_leaves (result_raises w before after r e at failed) h = (refl, omega (arith, ap open_end at))

  -- The worker has returned or raised, no request runs, and its units are back.
  pub record IsOver (w : World) : Type 0 where
    pub ended : has_ended w.phase ≡ true
    pub none_runs : count_running w.futures ≡ 0
    pub all_back : w.held ≡ 0

  abbrev pub Goes : World → Type 0
  Goes w = IsOver w ⊎ ((next : World) × Step py max_concurrency max_errors w next)

  over_or_next :
      (w : World)
      → Reachable py max_concurrency max_errors w
      → has_left w.phase ≡ true
      → (running callbacks : ℕ) → count_running w.futures ≡ running
      → w.to_release ≡ callbacks
      → Goes w
  over_or_next w reached h (suc k) callbacks count left =
      let (before, r, after, same) = split_running w.futures k count in
      inr (_, finishes w before after r (ok tt) same)
  over_or_next w reached h zero (suc k) count left = inr (_, releases w (ground arith))
  over_or_next w reached h zero zero count left = elim (left-cases w.phase h) [
    | inl at ↦ elim (Bool-cases (none_failed w.futures)) [
      | inl clean ↦ inr (_, returns w at count clean)
      | inr failed ↦
          let (before, r, e, after, same) = split_failed w.futures failed in
          inr (_, result_raises w before after r e at same)
    ]
    | inr (over, none_reserved) ↦
        let worker = reachable-IsWorker py max_concurrency max_errors reached in
        inl (record {
          ended = over;
          none_runs = count;
          all_back = omega (arith, worker.held, none_reserved, count, left);
        })
  ]

  counted_steps :
      {n : ℕ} {v w : World}
      → Run n v w
      → Reachable py max_concurrency max_errors v
      → has_left v.phase ≡ true
      → (n + left_to_do w ≡ left_to_do v) × Goes w
  counted_steps here reached h = (omega arith, over_or_next _ reached h _ _ refl refl)
  counted_steps (then_step step run) reached h =
      let (left, less) = step_leaves step h in
      let (count, goes) = counted_steps run (next reached step) left in
      (omega (arith, count, less), goes)

  -- Once a worker has left its loop, every way on comes to an end, whatever its requests come to: two
  -- steps for each request that still runs, one for each callback that is left and one to return or
  -- raise are the most, and where no step is possible any more the worker has returned or raised, no
  -- request runs and the client's budget has all its units back.
  pub leaving_ends :
      {n : ℕ} {v w : World}
      → Reachable py max_concurrency max_errors v
      → v.phase ≡ leaving
      → Run n v w
      → (n + left_to_do w ≡ left_to_do v) × Goes w
  leaving_ends reached at run = counted_steps run reached (ap has_left at)
