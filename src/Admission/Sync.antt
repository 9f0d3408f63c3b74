-- ===== src/Admission/Sync.antt =====
-- `SyncRequestBudget` (src/ucloud_sandboxes_sdk/_relay_admission.py). A step is what a thread does
-- while it holds the condition's lock; a ticket is a number of its own.
use ucloud_sandboxes_sdk.Prelude.{
  ℕ, zero, suc, ◌+◌, ◌-◌, ◌≤◌, Option, none, some, List, [], ◌∷◌, ◌++◌, eqb, if◌then◌else◌, ◌≡◌,
}

pub record Budget : Type 0 where
  pub available : ℕ
  pub waiters : List ℕ

unfoldable pub new_budget : ℕ → Budget
new_budget capacity = record { available = capacity; waiters = [] }

-- `self.waiters.append(ticket)`.
unfoldable pub enter : ℕ → Budget → Budget
enter ticket b = record b { waiters = b.waiters ++ (ticket ∷ []) }

-- `self.waiters.remove(ticket)`: the first one.
unfoldable pub remove : ℕ → List ℕ → List ℕ
remove t [] = []
remove t (w ∷ ws) = let rest = remove t ws in if eqb w t then ws else w ∷ rest

-- `self.waiters[0] is ticket and self.available`.
unfoldable pub may_go : ℕ → Budget → Option ℕ
may_go ticket b = elim b.waiters [
  | [] ↦ none
  | w ∷ ws ↦ if eqb w ticket then elim b.available [ zero ↦ none | suc n ↦ some n ] else none
]

-- One turn of the loop of `acquire`: `some` is the budget after `return 1`, whose `finally` takes
-- the ticket out.
unfoldable pub try_acquire : ℕ → Budget → Option Budget
unfolding may_go remove
try_acquire ticket b = elim (may_go ticket b) [
  | none ↦ none
  | some left ↦ some (record { available = left; waiters = remove ticket b.waiters })
]

-- `return 0` once `stop` is set, and the `finally`.
unfoldable pub give_up : ℕ → Budget → Budget
unfolding remove
give_up ticket b = record b { waiters = remove ticket b.waiters }

unfoldable pub release : ℕ → Budget → Budget
release count b = record b { available = b.available + count }

-- The budget with the tickets that came, the tickets that were admitted, in their order, and how
-- much of what was granted is not released yet.
pub record World : Type 0 where
  pub budget : Budget
  pub came : List ℕ
  pub admitted : List ℕ
  pub held : ℕ

pub data Step : World → World → Type 0 where
  comes :
      {w : World} (ticket : ℕ)
      → Step w (record w { budget = enter ticket w.budget; came = w.came ++ (ticket ∷ []) })
  admits :
      {w : World} (ticket : ℕ) (b : Budget)
      → try_acquire ticket w.budget ≡ some b
      → Step w (record w { budget = b; admitted = w.admitted ++ (ticket ∷ []); held = suc w.held })
  leaves : {w : World} (ticket : ℕ) → Step w (record w { budget = give_up ticket w.budget })
  releases :
      {w : World} (count : ℕ)
      → count ≤ w.held
      → Step w (record w { budget = release count w.budget; held = w.held - count })

unfoldable pub first_world : ℕ → World
unfolding new_budget
first_world capacity = record { budget = new_budget capacity; came = []; admitted = []; held = 0 }

pub data Reachable (capacity : ℕ) : World → Type 0 where
  at_first : Reachable capacity (first_world capacity)
  after : {v w : World} → Reachable capacity v → Step v w → Reachable capacity w
