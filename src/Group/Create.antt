-- ===== src/Group/Create.antt =====
-- The loop of a group create (src/ucloud_sandboxes_sdk/client.py: `_SandboxGroupCreate`,
-- `SandboxClient.create_sandbox_group`).
use ucloud_sandboxes_sdk.Prelude.{
  ℕ, zero, suc, ◌+◌, String, Bool, true, false, Option, none, some, List, [], ◌∷◌, ◌++◌, ◌==◌, ◌||◌,
  ℤ, eqb, leb, if◌then◌else◌,
}
use ucloud_sandboxes_sdk.Json.{Json, Fields, field, end, obj, has}
use ucloud_sandboxes_sdk.Errors.{ApiError, Exception, api_error, Result, ok, err, ◌>>=◌}
use ucloud_sandboxes_sdk.Runtime.{Runtime}
use ucloud_sandboxes_sdk.Clock.{deadline, remaining, required_remaining}
use ucloud_sandboxes_sdk.Retry.Delay.{retry_delay}
use ucloud_sandboxes_sdk.Retry.Policy.{should_retry}
use ucloud_sandboxes_sdk.Transport.Decode.{budget_exhausted}
use ucloud_sandboxes_sdk.Group.Status.{Member, Status, complete, is_deleted, status_from_payload}

-- What the loop keeps between its requests. `seen` is what `on_progress` was called with.
pub record State : Type 0 where
  pub attempt : ℕ
  pub records : List (String × Fields)
  pub last : Option Status
  pub seen : List Status

pub data Failure : Type 0 where
  -- `SandboxGroupUnavailableError`
  unavailable : ApiError → Failure
  -- `SandboxGroupError`, with the last answer on the members
  group_error : ApiError → Option Status → Failure
  unplaced : Status → Failure
  exception : Exception → Failure

abbrev pub is_empty_fields : Fields → Bool
is_empty_fields end = true
is_empty_fields (field k v fs) = false

-- `records[id] = record`.
abbrev pub put : String → Fields → List (String × Fields) → List (String × Fields)
put k v [] = (k, v) ∷ []
put k v ((j, w) ∷ rest) = let tail = put k v rest in if j == k then (j, v) ∷ rest else (j, w) ∷ tail

-- `records.get(id, {})`.
abbrev pub record_of : List (String × Fields) → String → Fields
record_of [] k = end
record_of ((j, w) ∷ rest) k = if j == k then w else record_of rest k

unfoldable pub keep_records : List Member → List (String × Fields) → List (String × Fields)
keep_records [] r = r
keep_records (m ∷ ms) r =
    let rest = keep_records ms in
    if is_empty_fields m.sandbox then rest r else rest (put m.id m.sandbox r)

-- `_SandboxGroupCreate.accept`.
unfoldable pub accept : Runtime → Json → State → Result Exception (Status × State)
unfolding keep_records
accept py payload s = do
  status ← status_from_payload py payload
  ok (
    status,
    record s {
      records = keep_records status.members s.records;
      last = some status;
      seen = s.seen ++ (status ∷ []);
    },
  )

abbrev pub or_last : Option Status → Option Status → Option Status
or_last none last = last
or_last (some g) last = some g

abbrev pub says_members : Json → Bool
says_members (obj fs) = has fs "sandboxes"
says_members _ = false

-- The group of an error's body, and the state after it is accepted.
unfoldable pub error_group : Runtime → ApiError → State → Result Exception (Option Status × State)
error_group py e s =
    if says_members e.body
    then elim (accept py e.body s) [ err x ↦ err x | ok (status, t) ↦ ok (some status, t) ]
    else ok (none, s)

abbrev pub no_group_status : Option ℕ → Bool
no_group_status none = false
no_group_status (some n) = eqb n 404 || eqb n 405 || eqb n 501

abbrev is_retried : ApiError → ℕ → Bool
is_retried e attempt = elim e.status_code [
  | none ↦ false
  | some status ↦ should_retry status e.body attempt "POST" "/v1/sandboxes" none
]

abbrev pub passes : ℕ → Option ℕ → Bool
passes delay none = false
passes delay (some r) = leb r delay

-- After the error's own answer on the members is accepted.
unfoldable pub repeat_after :
    Runtime → ApiError → Option Status → State → ℕ → Option ℕ → ℕ → Result Failure ℕ × State
unfolding error_group
repeat_after py e group s jitter d now =
    let delay = retry_delay py s.attempt e.headers "POST" "/v1/sandboxes" jitter in
    if is_retried e s.attempt
    then if passes delay (remaining d now)
      then (err (group_error (budget_exhausted e (suc s.attempt)) (or_last group s.last)), s)
      else (ok delay, record s { attempt = suc s.attempt })
    else (err (group_error e (or_last group s.last)), s)

-- `_SandboxGroupCreate.retry_delay`.
unfoldable pub group_retry_delay :
    Runtime → ApiError → State → ℕ → Option ℕ → ℕ → Result Failure ℕ × State
unfolding repeat_after
group_retry_delay py e s jitter d now =
    if no_group_status e.status_code then (err (unavailable e), s) else elim (error_group py e s) [
      | err x ↦ (err (exception x), s)
      | ok (group, t) ↦ repeat_after py e group t jitter d now
    ]

pub record Handle : Type 0 where
  pub id : String
  pub sandbox : Fields

abbrev pub handles_of : List (String × Fields) → List Member → List Handle
handles_of r [] = []
handles_of r (m ∷ ms) =
    let rest = handles_of r ms in
    if is_deleted m then rest else record { id = m.id; sandbox = record_of r m.id } ∷ rest

-- `_SandboxGroupCreate.handles`.
unfoldable pub handles : Status → State → Result Failure (List Handle)
handles status s =
    if complete status then ok (handles_of s.records status.members) else err (unplaced status)

-- What one request comes to, and the time that it and the pause after it take.
pub record Answer : Type 0 where
  pub outcome : Result Exception Fields
  pub took : ℕ
  pub jitter : ℕ
  pub overslept : ℕ

pub data Ended : Type 0 where
  created : List Handle → Ended
  failed : Failure → Ended
  out_of_fuel : Ended

module _ (py : Runtime) (server : ℕ → Answer) (d : Option ℕ) where
  -- The answer to a request that succeeded.
  unfoldable pub finish : Fields → State → Ended × State
  unfolding accept handles
  finish payload s = elim (accept py (obj payload) s) [
    | err x ↦ (failed (exception x), s)
    | ok (status, t) ↦ elim (handles status t) [ err f ↦ (failed f, t) | ok hs ↦ (created hs, t) ]
  ]

  unfoldable pub conclude :
      Result Exception Fields → ℕ → ℕ → State → (ℕ → State → Ended × State) → Ended × State
  unfolding finish
  conclude (ok payload) jitter now s rest = finish payload s
  conclude (err (api_error e)) jitter now s rest =
      let (r, t) = group_retry_delay py e s jitter d now in
      elim r [ err f ↦ (failed f, t) | ok delay ↦ rest delay t ]
  conclude (err x) jitter now s rest = (failed (exception x), s)

  unfoldable pub create_round : ℕ → State → (ℕ → State → Ended × State) → Ended × State
  unfolding conclude
  create_round now s rest = elim (required_remaining d now) [
    | err x ↦ (failed (exception x), s)
    | ok left ↦ let a = server s.attempt in conclude a.outcome a.jitter (now + a.took) s rest
  ]

  unfoldable pub create_loop : ℕ → ℕ → State → Ended × State
  create_loop zero now s = (out_of_fuel, s)
  create_loop (suc fuel) now s = create_round now s λ delay t.
      create_loop fuel (now + (server s.attempt).took + (delay + (server s.attempt).overslept)) t

abbrev pub start : State
start = record { attempt = 0; records = []; last = none; seen = [] }

-- `create_sandbox_group`, once the arguments are checked.
unfoldable pub create : Runtime → (ℕ → Answer) → ℤ → ℕ → ℕ → Ended × State
create py server timeout fuel now =
    create_loop py server (deadline (some timeout) now) fuel now start
