-- ===== src/Group/Placed.antt =====
-- What a group create returns (src/ucloud_sandboxes_sdk/client.py,
-- `SandboxClient.create_sandbox_group`, `_SandboxGroupCreate.handles`).
use ucloud_sandboxes_sdk.Prelude.{
  ℕ, String, true, Option, some, List, [], ◌∷◌, map, All, all, ℤ, ◌||◌, ◌≡◌, refl, ap, ◌∙◌, arith,
  inl, inr, Bool-cases, both_true, if◌then◌else◌,
}
use ucloud_sandboxes_sdk.Json.{Json, Fields, obj}
use ucloud_sandboxes_sdk.Errors.{ok, Result-cases}
use ucloud_sandboxes_sdk.Runtime.{Runtime}
use ucloud_sandboxes_sdk.Clock.{deadline}
use ucloud_sandboxes_sdk.Group.Status.{
  Member, Status, placed, is_deleted, complete, status_from_payload,
}
use ucloud_sandboxes_sdk.Group.Create.{
  State, Answer, created, Handle, handles, handles_of, record_of, accept, finish, create, start,
}
use ucloud_sandboxes_sdk.Group.Rule.{Cases, create_rule}

-- The members that were not deleted.
abbrev pub live : List Member → List Member
live [] = []
live (m ∷ ms) = let rest = live ms in if is_deleted m then rest else m ∷ rest

handles_of-live :
    (r : List (String × Fields)) (ms : List Member)
    → handles_of r ms ≡ map (λ m. record { id = m.id; sandbox = record_of r m.id }) (live ms)
handles_of-live r [] = refl
handles_of-live r (m ∷ ms) = elim (Bool-cases (is_deleted m)) [
  | inl gone ↦ rw gone (handles_of-live r ms)
  | inr here ↦
      rw here
        (ap (λ hs. record { id = m.id; sandbox = record_of r m.id } ∷ hs) (handles_of-live r ms))
]

live-placed :
    (ms : List Member)
    → all (λ m. placed m || is_deleted m) ms ≡ true
    → All (λ m. placed m ≡ true) (live ms)
live-placed [] h = tt
live-placed (m ∷ ms) h =
    let (one, others) = both_true (placed m || is_deleted m) _ h in
    elim (Bool-cases (is_deleted m)) [
      | inl gone ↦ rw gone (live-placed ms others)
      | inr here ↦ rw here (ground (arith, one), live-placed ms others)
    ]

-- The handles are those of an answer of the gateway, one for each member that was not deleted, in
-- the members' order, and each such member is placed.
pub record IsCreated (py : Runtime) (server : ℕ → Answer) (hs : List Handle) (kept : State)
    : Type 0 where
  pub attempt : ℕ
  pub payload : Fields
  pub status : Status
  pub answered : (server attempt).outcome ≡ ok payload
  pub decoded : status_from_payload py (obj payload) ≡ ok status
  pub listed :
      hs
      ≡ map (λ m. record { id = m.id; sandbox = record_of kept.records m.id }) (live status.members)
  pub all_placed : All (λ m. placed m ≡ true) (live status.members)

accept-status :
    (py : Runtime) (payload : Json) (s t : State) (status : Status)
    → accept py payload s ≡ ok (status, t)
    → status_from_payload py payload ≡ ok status
unfolding accept
accept-status py payload s t status h = ground arith

handles-ok :
    (status : Status) (s : State) (hs : List Handle)
    → handles status s ≡ ok hs
    → (complete status ≡ true) × (hs ≡ handles_of s.records status.members)
unfolding handles
handles-ok status s hs h = ground arith

module _ (py : Runtime) (server : ℕ → Answer) (d : Option ℕ) where
  finish-created :
      (payload : Fields) (s : State) (hs : List Handle)
      → (finish py server d payload s).0 ≡ created hs
      → (status : Status) × (accept py (obj payload) s
          ≡ ok (status, (finish py server d payload s).1))
        × (handles status (finish py server d payload s).1 ≡ ok hs)
  unfolding finish
  finish-created payload s hs h = elim (Result-cases (accept py (obj payload) s)) [
    | inl (x, unread) ↦ absurd (ground arith)
    | inr ((status, t), accepted) ↦ elim (Result-cases (handles status t)) [
      | inl (f, refused) ↦ absurd (ground arith)
      | inr (gs, given) ↦ (status, ground arith, ground arith)
    ]
  ]

  finish-IsCreated :
      (payload : Fields) (s : State) (hs : List Handle)
      → (server s.attempt).outcome ≡ ok payload
      → (finish py server d payload s).0 ≡ created hs
      → IsCreated py server hs (finish py server d payload s).1
  unfolding complete
  finish-IsCreated payload s hs got h =
      let (status, accepted, given) = finish-created payload s hs h in
      let (whole, same) = handles-ok status _ hs given in
      record {
        attempt = s.attempt;
        payload = payload;
        status = status;
        answered = got;
        decoded = accept-status py (obj payload) s _ status accepted;
        listed = same ∙ handles_of-live _ status.members;
        all_placed = live-placed status.members whole;
      }

  returns :
      Cases py server d
        (λ fuel now s r. (hs : List Handle) → r.0 ≡ created hs → IsCreated py server hs r.1)
  returns = record {
    at_zero = λ now s hs p. cc;
    late = λ fuel now s x hs p. cc;
    gave_up = λ fuel now s t f hs p. cc;
    finished = λ fuel now s payload got hs p. finish-IsCreated payload s hs got p;
    repeated = λ fuel now s t left delay r early ih hs p. ih hs p;
  }

-- A group create returns the handles of one answer of the gateway, one for each member that was
-- not deleted, in the members' order, each with the record that was kept for it, and every one of
-- those members is placed.
pub create-IsCreated :
    (py : Runtime) (server : ℕ → Answer) (timeout : ℤ) (fuel now : ℕ) (hs : List Handle)
    → (create py server timeout fuel now).0 ≡ created hs
    → IsCreated py server hs (create py server timeout fuel now).1
unfolding create
create-IsCreated py server timeout fuel now =
    create_rule py server _ _ (returns py server (deadline (some timeout) now)) fuel now start
