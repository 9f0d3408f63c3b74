-- ===== src/Group/Status.antt =====
-- What the gateway reports of a group (src/ucloud_sandboxes_sdk/client.py: `SandboxGroupMember`,
-- `SandboxGroupStatus`).
use ucloud_sandboxes_sdk.Prelude.{
  ℕ, suc, String, Bool, true, false, not, Option, none, some, List, [], ◌∷◌, ◌||◌, ◌==◌, ℤ, pos,
  one_of, length, all, if◌then◌else◌,
}
use ucloud_sandboxes_sdk.Json.{
  Json, Fields, bool, int, obj, end, get, read, list, dict, integer, some_text, text,
}
use ucloud_sandboxes_sdk.Errors.{
  plain, Exception, api_error, invalid_answer, Result, ok, err, ◌>>=◌,
}
use ucloud_sandboxes_sdk.Runtime.{Runtime}
use ucloud_sandboxes_sdk.Job.Record.{text_or_empty}

pub record Member : Type 0 where
  pub id : String
  pub status : String
  pub generation : Option ℤ
  pub node_id : Option String
  pub error_code : Option String
  -- the fields of `record`; none of them where the answer did not create the member
  pub sandbox : Fields
  pub payload : Fields

-- `SANDBOX_GROUP_UNPLACED_STATES`.
abbrev pub unplaced_states : List String
unplaced_states = "pending" ∷ "creating" ∷ "failed" ∷ "conflict" ∷ "deleted" ∷ []

unfoldable pub placed : Member → Bool
placed m = not (one_of m.status unplaced_states)

pub record Status : Type 0 where
  pub id : String
  pub count : ℤ
  pub state : String
  pub members : List Member
  pub payload : Json

unfoldable pub is_deleted : Member → Bool
is_deleted m = m.status == "deleted"

-- `SandboxGroupStatus.complete`.
unfoldable pub complete : Status → Bool
complete s = all (λ m. placed m || is_deleted m) s.members

-- `counts[status] = counts.get(status, 0) + 1`.
abbrev pub bump : String → List (String × ℕ) → List (String × ℕ)
bump k [] = (k, 1) ∷ []
bump k ((j, n) ∷ rest) =
    let tail = bump k rest in if j == k then (j, suc n) ∷ rest else (j, n) ∷ tail

abbrev pub count_from : List (String × ℕ) → List Member → List (String × ℕ)
count_from c [] = c
count_from c (m ∷ ms) = count_from (bump m.status c) ms

-- `SandboxGroupStatus.counts`.
unfoldable pub counts : Status → List (String × ℕ)
counts s = count_from [] s.members

abbrev pub bad_group {ℓ} : {A : Type ℓ} → String → Json → Result Exception A
bad_group what payload = err (api_error (plain (invalid_answer what) payload))

abbrev pub fields_or_none : Json → Fields
fields_or_none (obj fs) = fs
fields_or_none _ = end

abbrev pub member : Fields → String → String → Member
member fs id status = record {
  id = id;
  status = status;
  generation = integer (get fs "generation");
  node_id = text (get fs "node_id");
  error_code = some_text (get fs "error_code");
  sandbox = fields_or_none (get fs "sandbox");
  payload = fs;
}

-- One item of `sandboxes`.
unfoldable pub parse_member : Json → Json → Result Exception Member
parse_member payload item = elim (dict item) [
  | none ↦ bad_group "sandbox group member" payload
  | some fs ↦ elim (some_text (get fs "id")) [
    | none ↦ bad_group "sandbox group member" payload
    | some id ↦ elim (text (get fs "status")) [
      | none ↦ bad_group "sandbox group member" payload
      | some status ↦ ok (member fs id status)
    ]
  ]
]

unfoldable pub parse_members : Json → List Json → Result Exception (List Member)
parse_members payload [] = ok []
parse_members payload (item ∷ items) = do
  m ← parse_member payload item
  ms ← parse_members payload items
  ok (m ∷ ms)

-- `count if isinstance(count, int) else len(parsed)`: a bool is an int.
abbrev pub count_or : ℕ → Json → ℤ
count_or n (int i) = i
count_or n (bool true) = pos 1
count_or n (bool false) = pos 0
count_or n _ = pos n

-- `SandboxGroupStatus.from_payload`.
unfoldable pub status_from_payload : Runtime → Json → Result Exception Status
unfolding parse_members
status_from_payload py payload = elim (dict (read payload "group")) [
  | none ↦ bad_group "sandbox group payload" payload
  | some group ↦ elim (list (read payload "sandboxes")) [
    | none ↦ bad_group "sandbox group payload" payload
    | some items ↦ do
      members ← parse_members payload items
      ok (record {
        id = text_or_empty py (get group "id");
        count = count_or (length members) (get group "count");
        state = text_or_empty py (get group "state");
        members = members;
        payload = payload;
      })
  ]
]
