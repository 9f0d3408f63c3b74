-- ===== src/Admission/Capacity.antt =====
-- Nothing of a budget is lost, and nobody waits while some of it is left
-- (src/ucloud_sandboxes_sdk/_relay_admission.py, `AsyncRequestBudget`).
use ucloud_sandboxes_sdk.Prelude.{
  ℕ, zero, suc, ◌+◌, true, List, [], ◌∷◌, ◌++◌, length, length-append, ◌≡◌, ◌⊎◌, refl, inl, inr, ap,
  arith, Bool-cases, if◌then◌else◌,
}
use ucloud_sandboxes_sdk.Admission.Async.{
  Waiter, Budget, new_budget, Drained, drain_loop, drain, queued, released, abandoned, given_back,
  begin_acquire, take_out, is_in, release, claim, abandon, give_back, Step, begins, claims,
  abandons, gives_back, releases, Reachable, at_first, after,
}

-- The futures that wait, in their order.
abbrev pub waiting : List Waiter → List ℕ
waiting [] = []
waiting (w ∷ ws) = let rest = waiting ws in if w.cancelled then rest else w.future ∷ rest

-- A drain hands results to the first of those that wait, one for each of the budget that it takes,
-- until nothing is left or nobody waits.
record IsDrained (n : ℕ) (ws : List Waiter) (d : Drained) : Type 0 where
  taken : d.left + length d.results ≡ n
  in_order : waiting ws ≡ d.results ++ waiting d.queue
  stopped : (d.left ≡ 0) ⊎ (waiting d.queue ≡ [])

drain_loop-IsDrained : (n : ℕ) (ws : List Waiter) → IsDrained n ws (drain_loop n ws)
unfolding drain_loop
drain_loop-IsDrained n [] = record { taken = omega arith; in_order = refl; stopped = inr refl }
drain_loop-IsDrained zero (w ∷ ws) = elim (Bool-cases w.cancelled) [
  | inl gone ↦
      let i = drain_loop-IsDrained zero ws in
      rw (gone, drain_loop) (record { taken = i.taken; in_order = i.in_order; stopped = i.stopped })
  | inr here ↦
      rw (here, drain_loop) (record { taken = omega arith; in_order = refl; stopped = inl refl })
]
drain_loop-IsDrained (suc n) (w ∷ ws) = elim (Bool-cases w.cancelled) [
  | inl gone ↦
      let i = drain_loop-IsDrained (suc n) ws in
      rw (gone, drain_loop) (record { taken = i.taken; in_order = i.in_order; stopped = i.stopped })
  | inr here ↦
      let i = drain_loop-IsDrained n ws in
      rw (here, drain_loop)
        (record {
          taken = omega (arith, i.taken);
          in_order = ap (λ fs. w.future ∷ fs) i.in_order;
          stopped = i.stopped;
        })
]

-- Nobody waits while some of the budget is left.
abbrev pub NoneStarves : Budget → Type 0
NoneStarves b = (b.available ≡ 0) ⊎ (waiting b.waiters ≡ [])

abbrev total : Budget → ℕ
total b = b.available + length b.granted + b.held

drain-total : (b : Budget) → total (drain b) ≡ total b
unfolding drain
drain-total b = omega (
  arith,
  (drain_loop-IsDrained b.available b.waiters).taken,
  length-append b.granted (drain_loop b.available b.waiters).results,
)

drain-NoneStarves : (b : Budget) → NoneStarves (drain b)
unfolding drain
drain-NoneStarves b = (drain_loop-IsDrained b.available b.waiters).stopped

length-take_out :
    (f : ℕ) (gs : List ℕ) → is_in f gs ≡ true → suc (length (take_out f gs)) ≡ length gs
length-take_out f [] h = cc
length-take_out f (g ∷ gs) h = ground (arith, length-take_out f gs)

step-total : {a b : Budget} → Step a b → total b ≡ total a
unfolding begin_acquire claim abandon give_back release
step-total {a} (begins f) = drain-total (queued f a)
step-total {a} (claims f there) = omega (arith, length-take_out f a.granted there)
step-total {a} (abandons f) = drain-total (abandoned f a)
step-total {a} (gives_back f there) =
    omega (arith, drain-total (given_back f a), length-take_out f a.granted there)
step-total {a} (releases count most) = omega (arith, drain-total (released count a), most)

step-NoneStarves : {a b : Budget} → Step a b → NoneStarves a → NoneStarves b
unfolding begin_acquire claim abandon give_back release
step-NoneStarves {a} (begins f) h = drain-NoneStarves (queued f a)
step-NoneStarves (claims f there) h = h
step-NoneStarves {a} (abandons f) h = drain-NoneStarves (abandoned f a)
step-NoneStarves {a} (gives_back f there) h = drain-NoneStarves (given_back f a)
step-NoneStarves {a} (releases count most) h = drain-NoneStarves (released count a)

-- At every time what is available, what is granted and not seen yet, and what callers hold are the
-- capacity together, and nobody waits while some of the budget is available.
pub async_admission_sound :
    {capacity : ℕ} {b : Budget}
    → Reachable capacity b
    → (b.available + length b.granted + b.held ≡ capacity)
      × ((b.available ≡ 0) ⊎ (waiting b.waiters ≡ []))
unfolding new_budget
async_admission_sound at_first = (omega arith, inr refl)
async_admission_sound (after r s) =
    let (sum, live) = async_admission_sound r in
    (omega (arith, step-total s, sum), step-NoneStarves s live)

-- A drain gives its results to the futures that wait longest, in their order, and leaves the
-- others waiting in theirs.
pub drain-in_order :
    (b : Budget)
    → (results : List ℕ) × ((drain b).granted ≡ b.granted ++ results)
      × (waiting b.waiters ≡ results ++ waiting (drain b).waiters)
unfolding drain
drain-in_order b = (
  (drain_loop b.available b.waiters).results,
  refl,
  (drain_loop-IsDrained b.available b.waiters).in_order,
)
