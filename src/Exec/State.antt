-- ===== src/Exec/State.antt =====
-- The cursor of an exec session (src/ucloud_sandboxes_sdk/client.py: `_ExecState` and its helpers).
use ucloud_sandboxes_sdk.Prelude.{
  ℕ, suc, String, Bool, true, false, not, Option, none, some, List, [], ◌∷◌, ◌++◌, ℤ, pos, leb,
  is_nat, is_empty, codes, same_codes, ◌&&◌, if◌then◌else◌,
}
use ucloud_sandboxes_sdk.Json.{
  Json, Fields, obj, int, bool, get, in_texts, equals_text, list, dict, integer, truthy, str,
}
use ucloud_sandboxes_sdk.Errors.{
  plain, Exception, api_error, history_lost, invalid_answer, Result, ok, err,
}
use ucloud_sandboxes_sdk.Runtime.{Runtime}

pub record ExecState : Type 0 where
  pub session_id : String
  pub session : Fields
  pub last_sequence : ℕ
  pub initial_payload : Option Fields

abbrev all_dicts : List Json → Option (List Fields)
all_dicts [] = some []
all_dicts (obj fs ∷ vs) = elim (all_dicts vs) [ none ↦ none | some rest ↦ some (fs ∷ rest) ]
all_dicts (v ∷ vs) = none

abbrev pub bad_answer {ℓ} : {A : Type ℓ} → String → Json → Result Exception A
bad_answer what body = err (api_error (plain (invalid_answer what) body))

unfoldable pub event_payloads : Json → Result Exception (List Fields)
event_payloads value = elim (list value) [
  | none ↦ bad_answer "exec event payload" value
  | some items ↦ elim (all_dicts items) [
    | none ↦ bad_answer "exec event" value
    | some events ↦ ok events
  ]
]

unfoldable pub next_sequence : String → ℕ → Fields → Result Exception ℕ
next_sequence session_id previous event = elim (integer (get event "sequence")) [
  | none ↦ bad_answer "exec event sequence" (obj event)
  | some received ↦
      if is_nat received (suc previous)
      then ok (suc previous)
      else err (history_lost session_id (suc previous) received)
]

-- The loop of `_accept_events`: the cursor stays where an event was refused.
unfoldable pub advance : String → ℕ → List Fields → Result Exception (Unit {0}) × ℕ
advance session_id last [] = (ok tt, last)
advance session_id last (event ∷ events) = elim (next_sequence session_id last event) [
  | err e ↦ (err e, last)
  | ok next ↦ advance session_id next events
]

unfoldable pub accept_session : Fields → ExecState → ExecState
accept_session payload s = elim (dict (get payload "session")) [
  | none ↦ s
  | some session ↦ record s { session = session }
]

abbrev settle :
    Fields
    → List Fields
    → ExecState
    → Result Exception (Unit {0})
    → Result Exception (List Fields) × ExecState
settle payload events s (err e) = (err e, s)
settle payload events s (ok _) = (ok events, accept_session payload s)

unfoldable pub accept_events : Fields → ExecState → Result Exception (List Fields) × ExecState
unfolding event_payloads
accept_events payload s = elim (event_payloads (get payload "events")) [
  | err e ↦ (err e, s)
  | ok events ↦
      let (r, last) = advance s.session_id s.last_sequence events in
      settle payload events (record s { last_sequence = last }) r
]

-- `_take_initial_payload`.
unfoldable pub take_initial : ExecState → Option Fields × ExecState
take_initial s = (s.initial_payload, record s { initial_payload = none })

unfoldable pub is_terminal : ExecState → Bool
is_terminal s = in_texts (get s.session "status") ("exited" ∷ "failed" ∷ [])

-- `final` where `type(final) is int and final >= 0`.
abbrev pub final_sequence : Json → Option ℕ
final_sequence (int (pos n)) = some n
final_sequence _ = none

unfoldable pub events_drained : List Fields → ExecState → Bool
events_drained events s =
    if not (is_terminal s) then false else elim (final_sequence (get s.session "final_sequence")) [
      | some final ↦ leb final s.last_sequence
      | none ↦ is_empty events
    ]

-- `SandboxExecResult`; the texts are code points.
pub record ExecResult : Type 0 where
  pub session_id : String
  pub status : List ℕ
  pub exit_code : Option ℤ
  pub stdout : List ℕ
  pub stderr : List ℕ
  pub events : List Fields
  pub session : Fields

-- `str(value or "")`.
abbrev pub str_or_empty : Runtime → Json → List ℕ
str_or_empty py (str s) = codes s
str_or_empty py v = if truthy v then codes (py.text_of v) else []

-- `"".join(...)` over the events of one stream.
unfoldable pub joined : Runtime → String → List Fields → List ℕ
joined py stream [] = []
joined py stream (event ∷ events) =
    let rest = joined py stream events in
    if equals_text (get event "stream") stream
    then str_or_empty py (get event "data") ++ rest
    else rest

-- `isinstance(value, int)`: a bool is one.
abbrev as_int : Json → Option ℤ
as_int (int i) = some i
as_int (bool true) = some (pos 1)
as_int (bool false) = some (pos 0)
as_int _ = none

unfoldable pub exec_result : Runtime → List Fields → ExecState → ExecResult
unfolding joined
exec_result py events s = record {
  session_id = s.session_id;
  status = str_or_empty py (get s.session "status");
  exit_code = as_int (get s.session "exit_code");
  stdout = joined py "stdout" events;
  stderr = joined py "stderr" events;
  events = events;
  session = s.session;
}

-- `SandboxExecResult.success`.
unfoldable pub success : ExecResult → Bool
success r = elim r.exit_code [
  | none ↦ false
  | some code ↦ is_nat code 0 && same_codes r.status (codes "exited")
]
