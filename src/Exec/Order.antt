-- ===== src/Exec/Order.antt =====
-- The order of the events that a session accepts (src/ucloud_sandboxes_sdk/client.py:
-- `_ExecState._accept_events`, `_next_exec_sequence`).
use ucloud_sandboxes_sdk.Prelude.{
  ℕ, suc, ◌+◌, String, false, List, [], ◌∷◌, ◌++◌, ℤ, pos, ◌≡◌, arith, length, is_nat, inl, inr,
  ◌≤◌, subst,
}
use ucloud_sandboxes_sdk.Errors.{Result-cases}
use ucloud_sandboxes_sdk.Json.{int, Fields, get}
use ucloud_sandboxes_sdk.Errors.{history_lost, ok, err}
use ucloud_sandboxes_sdk.Exec.State.{
  ExecState, next_sequence, advance, accept_session, accept_events, event_payloads,
}

-- The events carry the numbers n + 1, n + 2 and so on, with no gap and no repetition.
abbrev pub Consecutive : ℕ → List Fields → Type 0
Consecutive n [] = Unit
Consecutive n (e ∷ es) = (get e "sequence" ≡ int (pos (suc n))) × Consecutive (suc n) es

pub Consecutive-append :
    (n : ℕ) (es fs : List Fields) (m : ℕ)
    → m ≡ n + length es
    → Consecutive n es
    → Consecutive m fs
    → Consecutive n (es ++ fs)
Consecutive-append n [] fs m at h k = let e : m ≡ n = omega arith in rw e at k
Consecutive-append n (e ∷ es) fs m at h k =
    (h.0, Consecutive-append (suc n) es fs m (omega arith) h.1 k)

next_sequence-ok :
    (session_id : String) (n : ℕ) (e : Fields) (m : ℕ)
    → next_sequence session_id n e ≡ ok m
    → (get e "sequence" ≡ int (pos (suc n))) × (m ≡ suc n)
unfolding next_sequence
next_sequence-ok session_id n e m h = ground arith

next_sequence-lost :
    (session_id : String) (n : ℕ) (e : Fields) (i : String) (x : ℕ) (g : ℤ)
    → next_sequence session_id n e ≡ err (history_lost i x g)
    → (i ≡ session_id) × (x ≡ suc n) × (is_nat g (suc n) ≡ false)
unfolding next_sequence
next_sequence-lost session_id n e i x g h = ground arith

pub advance-ok :
    (session_id : String) (n : ℕ) (es : List Fields) (m : ℕ)
    → advance session_id n es ≡ (ok tt, m)
    → Consecutive n es × (m ≡ n + length es)
unfolding advance
advance-ok session_id n [] m h = (tt, ground arith)
advance-ok session_id n (e ∷ es) m h = elim (Result-cases (next_sequence session_id n e)) [
  | inl (x, refused) ↦ ground arith
  | inr (k, next) ↦
      let (at, step) = next_sequence-ok session_id n e k next in
      let (rest, total) = advance-ok session_id k es m (ground arith) in
      ((at, subst (λ j. Consecutive j es) step rest), omega arith)
]

advance-lost :
    (session_id : String) (n : ℕ) (es : List Fields) (i : String) (x : ℕ) (g : ℤ) (m : ℕ)
    → advance session_id n es ≡ (err (history_lost i x g), m)
    → (i ≡ session_id) × (x ≡ suc m) × (is_nat g x ≡ false) × (n ≤ m)
unfolding advance
advance-lost session_id n [] i x g m h = ground arith
advance-lost session_id n (e ∷ es) i x g m h = elim (Result-cases (next_sequence session_id n e)) [
  | inl (y, refused) ↦ ground (arith, next_sequence-lost session_id n e i x g)
  | inr (k, next) ↦
      ground (arith, next_sequence-ok session_id n e k, advance-lost session_id k es i x g m)
]

-- The events that a payload brings continue the cursor's count one by one, and the cursor moves
-- past exactly these events; the session's id and the pending payload stay.
pub accept_events-Consecutive :
    (payload : Fields) (s t : ExecState) (es : List Fields)
    → accept_events payload s ≡ (ok es, t)
    → Consecutive s.last_sequence es
      × (t.last_sequence ≡ s.last_sequence + length es)
      × (t.session_id ≡ s.session_id)
      × (t.initial_payload ≡ s.initial_payload)
unfolding accept_events accept_session
accept_events-Consecutive payload s t es h =
    elim (Result-cases (event_payloads (get payload "events"))) [
      | inl (x, refused) ↦ absurd (ground arith)
      | inr (fs, read) ↦
          let same : es ≡ fs = ground arith in
          rw same (ground (arith, advance-ok s.session_id s.last_sequence fs t.last_sequence))
    ]

-- An error of lost history names the session, the number after the cursor, and a received number
-- that is another one; the cursor is not moved back.
pub accept_events-lost :
    (payload : Fields) (s t : ExecState) (i : String) (x : ℕ) (g : ℤ)
    → accept_events payload s ≡ (err (history_lost i x g), t)
    → (i ≡ s.session_id)
      × (x ≡ suc t.last_sequence)
      × (is_nat g x ≡ false)
      × (s.last_sequence ≤ t.last_sequence)
unfolding accept_events
accept_events-lost payload s t i x g h =
    elim (Result-cases (event_payloads (get payload "events"))) [
      | inl (y, refused) ↦ absurd (ground arith)
      | inr (fs, read) ↦
          ground (arith, advance-lost s.session_id s.last_sequence fs i x g t.last_sequence)
    ]
