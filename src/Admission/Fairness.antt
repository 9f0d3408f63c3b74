-- ===== src/Admission/Fairness.antt =====
-- The order in which a budget admits (src/ucloud_sandboxes_sdk/_relay_admission.py,
-- `SyncRequestBudget`).
use ucloud_sandboxes_sdk.Prelude.{
  ℕ, suc, ◌+◌, some, List, [], ◌∷◌, ◌++◌, eqb, ◌≡◌, ◌⊎◌, refl, ap, sym, subst, ◌∙◌, arith,
  Bool-cases, inl, inr,
}
use mathlib.Core.List.{append_assoc}
use ucloud_sandboxes_sdk.Admission.Sync.{
  Budget, new_budget, enter, remove, may_go, try_acquire, give_up, release, World, Step, comes,
  admits, leaves, releases, first_world, Reachable, at_first, after,
}

-- What is left of a list when some of its entries are left out, in its order.
pub data Within : List ℕ → List ℕ → Type 0 where
  none_left : Within [] []
  left_out : {xs ys : List ℕ} (y : ℕ) → Within xs ys → Within xs (y ∷ ys)
  kept : {xs ys : List ℕ} (y : ℕ) → Within xs ys → Within (y ∷ xs) (y ∷ ys)

Within-append-one :
    {xs ys : List ℕ} (t : ℕ) → Within xs ys → Within (xs ++ (t ∷ [])) (ys ++ (t ∷ []))
Within-append-one t none_left = kept t none_left
Within-append-one t (left_out y w) = left_out y (Within-append-one t w)
Within-append-one t (kept y w) = kept y (Within-append-one t w)

Within-refl : (xs : List ℕ) → Within xs xs
Within-refl [] = none_left
Within-refl (x ∷ xs) = kept x (Within-refl xs)

remove-Within : (t : ℕ) (xs : List ℕ) → Within (remove t xs) xs
unfolding remove
remove-Within t [] = none_left
remove-Within t (x ∷ xs) = elim (Bool-cases (eqb x t)) [
  | inl same ↦ rw (same, remove) (left_out x (Within-refl xs))
  | inr other ↦ rw (other, remove) (kept x (remove-Within t xs))
]

Within-front : (ps : List ℕ) {bs cs : List ℕ} → Within bs cs → Within (ps ++ bs) (ps ++ cs)
Within-front [] h = h
Within-front (p ∷ ps) h = kept p (Within-front ps h)

Within-trans : {xs ys zs : List ℕ} → Within xs ys → Within ys zs → Within xs zs
Within-trans none_left none_left = none_left
Within-trans u (left_out z v) = left_out z (Within-trans u v)
Within-trans (left_out y u) (kept _ v) = left_out y (Within-trans u v)
Within-trans (kept y u) (kept _ v) = kept y (Within-trans u v)

-- Those admitted, and after them those that wait, stand in the order in which they came.
abbrev pub InOrder : World → Type 0
InOrder w = Within (w.admitted ++ w.budget.waiters) w.came

List-cases : (xs : List ℕ) → (xs ≡ []) ⊎ ((y : ℕ) × (ys : List ℕ) × (xs ≡ y ∷ ys))
List-cases [] = inl refl
List-cases (y ∷ ys) = inr (y, ys, refl)

-- A ticket is admitted only at the head of the queue, and takes one of the budget.
pub try_acquire_head :
    (t : ℕ) (b c : Budget)
    → try_acquire t b ≡ some c
    → (rest : List ℕ) × (b.waiters ≡ t ∷ rest)
      × (c.waiters ≡ rest)
      × (b.available ≡ suc c.available)
unfolding try_acquire may_go remove
try_acquire_head t b c h = elim (List-cases b.waiters) [
  | inl empty ↦ absurd (ground arith)
  | inr (w, ws, e) ↦ elim (Bool-cases (eqb w t)) [
    | inl same ↦ (ws, ground arith, ground arith, ground arith)
    | inr other ↦ absurd (ground arith)
  ]
]

step-InOrder : {v w : World} → Step v w → InOrder v → InOrder w
unfolding enter give_up release
step-InOrder {v} (comes ticket) h =
    subst (λ xs. Within xs (v.came ++ (ticket ∷ [])))
      (append_assoc v.admitted v.budget.waiters (ticket ∷ [])) (Within-append-one ticket h)
step-InOrder {v} (admits ticket b got) h =
    let (rest, queue, left, _) = try_acquire_head ticket v.budget b got in
    subst (λ xs. Within xs v.came)
      (ap (λ ws. v.admitted ++ ws) (queue ∙ ap (λ r. ticket ∷ r) (sym left))
        ∙ sym (append_assoc v.admitted (ticket ∷ []) b.waiters))
      h
step-InOrder {v} (leaves ticket) h =
    Within-trans (Within-front v.admitted (remove-Within ticket v.budget.waiters)) h
step-InOrder (releases count most) h = h

-- At every time the tickets admitted so far, followed by those that still wait, stand in the order
-- in which they came: the budget is first in, first out but for tickets that left.
pub admission-InOrder : {capacity : ℕ} {w : World} → Reachable capacity w → InOrder w
unfolding first_world new_budget
admission-InOrder at_first = none_left
admission-InOrder (after r s) = step-InOrder s (admission-InOrder r)

step-total : {v w : World} → Step v w → w.budget.available + w.held ≡ v.budget.available + v.held
unfolding enter give_up release
step-total (comes ticket) = refl
step-total {v} (admits ticket b got) =
    let (rest, queue, left, one) = try_acquire_head ticket v.budget b got in omega (arith, one)
step-total (leaves ticket) = refl
step-total {v} (releases count most) = omega (arith, most)

-- What is available and what is held are the capacity together, at every time.
pub admission-capacity :
    {capacity : ℕ} {w : World} → Reachable capacity w → w.budget.available + w.held ≡ capacity
unfolding first_world new_budget
admission-capacity at_first = omega arith
admission-capacity (after r s) = step-total s ∙ admission-capacity r
