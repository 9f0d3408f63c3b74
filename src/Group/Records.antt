-- ===== src/Group/Records.antt =====
-- The records that a group create keeps (src/ucloud_sandboxes_sdk/client.py,
-- `_SandboxGroupCreate.accept`): a member's record comes only in the answer that created it.
use ucloud_sandboxes_sdk.Prelude.{
  String, not, List, [], ◌∷◌, ◌&&◌, ◌==◌, eq_iff, if◌then◌else◌, ◌≡◌, refl, ap, ◌∙◌, arith,
  Bool-cases, inl, inr,
}
use ucloud_sandboxes_sdk.Json.{Json, Fields}
use ucloud_sandboxes_sdk.Errors.{ok, >>=-eq-ok}
use ucloud_sandboxes_sdk.Runtime.{Runtime}
use ucloud_sandboxes_sdk.Group.Status.{Member, Status, status_from_payload}
use ucloud_sandboxes_sdk.Group.Create.{State, is_empty_fields, put, record_of, keep_records, accept}

-- The last record that the members bring for an id, or the old one.
abbrev pub latest : String → List Member → Fields → Fields
latest k [] old = old
latest k (m ∷ ms) old =
    let rest = latest k ms in
    if not (is_empty_fields m.sandbox) && m.id == k then rest m.sandbox else rest old

record_of-put :
    (j k : String) (v : Fields) (r : List (String × Fields))
    → record_of (put j v r) k ≡ (if j == k then v else record_of r k)
record_of-put j k v [] = refl
record_of-put j k v ((i, w) ∷ rest) = elim (Bool-cases (i == j)) [
  | inl same ↦ ground (arith, eq_iff i k, eq_iff j k, eq_iff i j)
  | inr differ ↦ ground (arith, record_of-put j k v rest, eq_iff i k, eq_iff j k, eq_iff i j)
]

record_of-keep_records :
    (k : String) (ms : List Member) (r : List (String × Fields))
    → record_of (keep_records ms r) k ≡ latest k ms (record_of r k)
unfolding keep_records
record_of-keep_records k [] r = refl
record_of-keep_records k (m ∷ ms) r = elim (Bool-cases (is_empty_fields m.sandbox)) [
  | inl none_sent ↦ rw none_sent (record_of-keep_records k ms r)
  | inr sent ↦ elim (Bool-cases (m.id == k)) [
    | inl same ↦
        rw (sent, same)
          (record_of-keep_records k ms (put m.id m.sandbox r)
            ∙ ap (latest k ms) (record_of-put m.id k m.sandbox r ∙ rw same refl))
    | inr other ↦
        rw (sent, other)
          (record_of-keep_records k ms (put m.id m.sandbox r)
            ∙ ap (latest k ms) (record_of-put m.id k m.sandbox r ∙ rw other refl))
  ]
]

-- After an answer is accepted, each id has the last record that the answer brings for it, or the
-- record that it had.
pub accept-latest :
    (py : Runtime) (payload : Json) (s t : State) (status : Status) (k : String)
    → accept py payload s ≡ ok (status, t)
    → record_of t.records k ≡ latest k status.members (record_of s.records k)
unfolding accept
accept-latest py payload s t status k h =
    let (read, at, same) = >>=-eq-ok (status_from_payload py payload) _ h in
    ground (arith, record_of-keep_records k read.members s.records)
