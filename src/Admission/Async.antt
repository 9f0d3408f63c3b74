-- ===== src/Admission/Async.antt =====
-- `AsyncRequestBudget` (src/ucloud_sandboxes_sdk/_relay_admission.py). A future is a number of its
-- own; a step is what a task does between two points where it waits.
use ucloud_sandboxes_sdk.Prelude.{
  ℕ, zero, suc, ◌+◌, ◌-◌, ◌≤◌, Bool, true, false, List, [], ◌∷◌, ◌++◌, eqb, if◌then◌else◌, ◌≡◌,
}

-- A future in `waiters`, and whether it is cancelled.
pub record Waiter : Type 0 where
  pub future : ℕ
  pub cancelled : Bool

-- `granted`: the futures with a result that their task has not seen; `held`: what was returned to
-- callers and not released.
pub record Budget : Type 0 where
  pub available : ℕ
  pub waiters : List Waiter
  pub granted : List ℕ
  pub held : ℕ

unfoldable pub new_budget : ℕ → Budget
new_budget capacity = record { available = capacity; waiters = []; granted = []; held = 0 }

-- The loop of `_drain`: what is left available, the queue, and the futures that get a result.
pub record Drained : Type 0 where
  pub left : ℕ
  pub queue : List Waiter
  pub results : List ℕ

abbrev grants : ℕ → Drained → Drained
grants f d = record d { results = f ∷ d.results }

unfoldable pub drain_loop : ℕ → List Waiter → Drained
drain_loop n [] = record { left = n; queue = []; results = [] }
drain_loop zero (w ∷ ws) =
    let rest = drain_loop zero ws in
    if w.cancelled then rest else record { left = zero; queue = w ∷ ws; results = [] }
drain_loop (suc n) (w ∷ ws) =
    let skipped = drain_loop (suc n) ws in
    let taken = drain_loop n ws in if w.cancelled then skipped else grants w.future taken

-- `_drain`.
unfoldable pub drain : Budget → Budget
unfolding drain_loop
drain b =
    let d = drain_loop b.available b.waiters in
    record b { available = d.left; waiters = d.queue; granted = b.granted ++ d.results }

abbrev pub queued : ℕ → Budget → Budget
queued f b = record b { waiters = b.waiters ++ (record { future = f; cancelled = false } ∷ []) }

-- The start of `acquire`, until it waits.
unfoldable pub begin_acquire : ℕ → Budget → Budget
unfolding drain
begin_acquire f b = drain (queued f b)

-- `future.cancel()`.
abbrev pub cancel : ℕ → List Waiter → List Waiter
cancel f [] = []
cancel f (w ∷ ws) =
    let rest = cancel f ws in
    if eqb w.future f then record w { cancelled = true } ∷ rest else w ∷ rest

-- `future.result()` leaves the future; the first one of the number.
abbrev pub take_out : ℕ → List ℕ → List ℕ
take_out f [] = []
take_out f (g ∷ gs) = let rest = take_out f gs in if eqb g f then gs else g ∷ rest

abbrev pub is_in : ℕ → List ℕ → Bool
is_in f [] = false
is_in f (g ∷ gs) = let rest = is_in f gs in if eqb g f then true else rest

abbrev pub released : ℕ → Budget → Budget
released count b = record b { available = b.available + count; held = b.held - count }

-- `release(count)`, of what callers hold.
unfoldable pub release : ℕ → Budget → Budget
unfolding drain
release count b = drain (released count b)

-- The task sees the result and returns it.
unfoldable pub claim : ℕ → Budget → Budget
claim f b = record b { granted = take_out f b.granted; held = suc b.held }

abbrev pub abandoned : ℕ → Budget → Budget
abandoned f b = record b { waiters = cancel f b.waiters }

-- `stop` is set, or the task is cancelled, before the future is done: `future.cancel()` and
-- `_drain`.
unfoldable pub abandon : ℕ → Budget → Budget
unfolding drain
abandon f b = drain (abandoned f b)

abbrev pub given_back : ℕ → Budget → Budget
given_back f b = record b { available = suc b.available; granted = take_out f b.granted }

-- And after it is done: its result is released.
unfoldable pub give_back : ℕ → Budget → Budget
unfolding drain
give_back f b = drain (given_back f b)

pub data Step : Budget → Budget → Type 0 where
  begins : {b : Budget} (f : ℕ) → Step b (begin_acquire f b)
  claims : {b : Budget} (f : ℕ) → is_in f b.granted ≡ true → Step b (claim f b)
  abandons : {b : Budget} (f : ℕ) → Step b (abandon f b)
  gives_back : {b : Budget} (f : ℕ) → is_in f b.granted ≡ true → Step b (give_back f b)
  releases : {b : Budget} (count : ℕ) → count ≤ b.held → Step b (release count b)

pub data Reachable (capacity : ℕ) : Budget → Type 0 where
  at_first : Reachable capacity (new_budget capacity)
  after : {a b : Budget} → Reachable capacity a → Step a b → Reachable capacity b
