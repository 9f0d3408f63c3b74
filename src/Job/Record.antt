-- ===== src/Job/Record.antt =====
-- A job's record (src/ucloud_sandboxes_sdk/client.py: `SandboxJobRecord`, `_server_job_cursor`,
-- `_job_record`, `_checked_job`, `_job_status_answer`).
use Prim.Native.String.{◌++◌}
use ucloud_sandboxes_sdk.Prelude.{
  ℕ, zero, suc, ◌/◌, String, Bool, true, false, not, Option, none, some, List, [], ◌∷◌, ◌&&◌, ◌==◌,
  ℤ, pos, negsuc, pos_part, at_least, is_nat, one_of, decimal, if◌then◌else◌, four_true, not-true,
  ◌≡◌, refl, subst, eq_iff, arith,
}
use ucloud_sandboxes_sdk.Json.{
  Json, Fields, bool, int, real, str, obj, get, has, truthy, text, is_null,
}
use ucloud_sandboxes_sdk.Errors.{
  plain, Exception, api_error, invalid_answer, Result, ok, err, ◌>>=◌, >>=-eq-ok,
}
use ucloud_sandboxes_sdk.Runtime.{Runtime}
use ucloud_sandboxes_sdk.Transport.Decode.{Headers}
use ucloud_sandboxes_sdk.Retry.Delay.{retry_after}

pub record JobRecord : Type 0 where
  pub sandbox_id : String
  pub sandbox_generation : ℤ
  pub job_id : String
  pub spec_sha256 : String
  pub state : String
  pub pid : ℕ
  pub started_at : String
  pub completed_at : String
  pub exit_code : Option ℤ
  pub signal : ℕ
  pub stdout_bytes : ℕ
  pub stderr_bytes : ℕ
  pub stdout_truncated : Bool
  pub stderr_truncated : Bool
  pub sequence : ℕ
  pub updated_at : String
  pub cursor : String
  pub cursor_from_server : Bool
  -- microseconds of the answer's Retry-After
  pub retry_after : Option ℕ

-- `int(value)`, or none where it raises; a fraction is cut off.
abbrev pub to_int : Runtime → Json → Option ℤ
to_int py (int i) = some i
to_int py (bool true) = some (pos 1)
to_int py (bool false) = some (pos 0)
to_int py (real (pos n)) = some (pos (n / 1000000))
to_int py (real (negsuc n)) =
    some (let m = suc n / 1000000 in elim m [ zero ↦ pos 0 | suc k ↦ negsuc k ])
to_int py (str s) = py.int_of s
to_int py _ = none

-- `str(value)`.
abbrev pub to_text : Runtime → Json → String
to_text py (str s) = s
to_text py v = py.text_of v

-- `payload[key]`, or none where it raises `KeyError`.
abbrev pub item : Fields → String → Option Json
item fs k = if has fs k then some (get fs k) else none

-- `str(payload.get(key) or "")`.
abbrev pub text_or_empty : Runtime → Json → String
text_or_empty py v = if truthy v then to_text py v else ""

-- `max(0, int(payload.get(key) or 0))`.
abbrev count : Runtime → Json → Option ℕ
count py v =
    if truthy v then elim (to_int py v) [ none ↦ none | some i ↦ some (pos_part i) ] else some 0

-- `int(value) if value is not None else None`.
abbrev optional_int : Runtime → Json → Option (Option ℤ)
optional_int py v =
    if is_null v then some none else elim (to_int py v) [ none ↦ none | some i ↦ some (some i) ]

abbrev pub terminal_states : List String
terminal_states = "exited" ∷ "signaled" ∷ "failed" ∷ []

unfoldable pub server_job_cursor : Fields → String
server_job_cursor fs = elim (text (get fs "cursor")) [ none ↦ "" | some c ↦ c ]

-- `__post_init__`.
unfoldable pub with_cursor : JobRecord → JobRecord
with_cursor r =
    if r.cursor == ""
    then record r {
      cursor = decimal r.sequence ++ "." ++ decimal r.stdout_bytes ++ "." ++ decimal r.stderr_bytes;
    }
    else r

abbrev pub bad_job {ℓ} : {A : Type ℓ} → Json → Result Exception A
bad_job body = err (api_error (plain (invalid_answer "job payload") body))

module _ (py : Runtime) (fs : Fields) where
  abbrev need {ℓ} : {A : Type ℓ} → Option A → Result Exception A
  need (some a) = ok a
  need none = bad_job (obj fs)

  abbrev need_item : String → Result Exception Json
  need_item k = need (item fs k)

  unfoldable pub read_job : Result Exception JobRecord
  unfolding with_cursor server_job_cursor
  read_job = do
    sandbox_id ← need_item "sandbox_id"
    generation_value ← need_item "sandbox_generation"
    sandbox_generation ← need (to_int py generation_value)
    job_id ← need_item "job_id"
    spec_sha256 ← need_item "spec_sha256"
    state ← need_item "state"
    pid ← need (count py (get fs "pid"))
    exit_code ← need (optional_int py (get fs "exit_code"))
    signal ← need (count py (get fs "signal"))
    stdout_bytes ← need (count py (get fs "stdout_bytes"))
    stderr_bytes ← need (count py (get fs "stderr_bytes"))
    sequence ← need (count py (get fs "sequence"))
    ok (
        with_cursor (record {
          sandbox_id = to_text py sandbox_id;
          sandbox_generation = sandbox_generation;
          job_id = to_text py job_id;
          spec_sha256 = to_text py spec_sha256;
          state = to_text py state;
          pid = pid;
          started_at = text_or_empty py (get fs "started_at");
          completed_at = text_or_empty py (get fs "completed_at");
          exit_code = exit_code;
          signal = signal;
          stdout_bytes = stdout_bytes;
          stderr_bytes = stderr_bytes;
          stdout_truncated = truthy (get fs "stdout_truncated");
          stderr_truncated = truthy (get fs "stderr_truncated");
          sequence = sequence;
          updated_at = text_or_empty py (get fs "updated_at");
          cursor = server_job_cursor fs;
          cursor_from_server = not (server_job_cursor fs == "");
          retry_after = none;
        }))

abbrev pub all_states : List String
all_states = "starting" ∷ "running" ∷ terminal_states

unfoldable pub is_valid_job : JobRecord → Bool
is_valid_job r =
    not (r.sandbox_id == "")
    && at_least 1 r.sandbox_generation
    && not (r.job_id == "")
    && one_of r.state all_states

-- `SandboxJobRecord.from_payload`.
unfoldable pub job_from_payload : Runtime → Json → Result Exception JobRecord
job_from_payload py (obj fs) = do
  r ← read_job py fs
  if is_valid_job r then ok r else bad_job (obj fs)
job_from_payload py payload = bad_job payload

-- `SandboxJobRecord.terminal`, `SandboxJobRecord.success`.
unfoldable pub terminal : JobRecord → Bool
terminal r = one_of r.state terminal_states

unfoldable pub job_success : JobRecord → Bool
job_success r = r.state == "exited" && elim r.exit_code [ none ↦ false | some i ↦ is_nat i 0 ]

unfoldable pub job_record : Runtime → Json → Result Exception JobRecord
job_record py (obj fs) = job_from_payload py (get fs "job")
job_record py response = bad_job response

unfoldable pub checked_job : Runtime → Json → String → String → Result Exception JobRecord
checked_job py response sandbox_id job_id = do
  r ← job_record py response
  if r.sandbox_id == sandbox_id && r.job_id == job_id
      then ok r
      else err (api_error (plain (invalid_answer "another sandbox job") response))

unfoldable pub job_status_answer :
    Runtime → Json → Headers → String → String → Result Exception JobRecord
job_status_answer py response headers sandbox_id job_id = do
  r ← checked_job py response sandbox_id job_id
  ok (record r { retry_after = retry_after py headers })

-- A record that is accepted has ids that are not empty, a positive generation and one of the five
-- states.
pub record IsJob (r : JobRecord) : Type 0 where
  pub has_sandbox : (r.sandbox_id == "") ≡ false
  pub generation : at_least 1 r.sandbox_generation ≡ true
  pub has_job : (r.job_id == "") ≡ false
  pub known_state : one_of r.state all_states ≡ true

is_valid_job-IsJob : (r : JobRecord) → is_valid_job r ≡ true → IsJob r
unfolding is_valid_job
is_valid_job-IsJob r h =
    let (sandbox, generation, job, state) = four_true _ _ _ _ h in
    record {
      has_sandbox = not-true _ sandbox;
      generation = generation;
      has_job = not-true _ job;
      known_state = state;
    }

guarded :
    {A E : Type 0} (b : Bool) (a c : A) (e : E)
    → (if b then ok a else err e) ≡ ok c
    → (b ≡ true) × (a ≡ c)
guarded b a c e h = ground arith

pub job_from_payload-IsJob :
    (py : Runtime) (payload : Json) (r : JobRecord) → job_from_payload py payload ≡ ok r → IsJob r
unfolding job_from_payload
job_from_payload-IsJob py (obj fs) r h =
    let (q, at, valid) = >>=-eq-ok (read_job py fs) _ h in
    let (yes_valid, same) = guarded (is_valid_job q) q r _ valid in
    subst IsJob same (is_valid_job-IsJob q yes_valid)
job_from_payload-IsJob py _ r h = cc

job_record-IsJob :
    (py : Runtime) (response : Json) (r : JobRecord) → job_record py response ≡ ok r → IsJob r
unfolding job_record
job_record-IsJob py (obj fs) r h = job_from_payload-IsJob py (get fs "job") r h
job_record-IsJob py _ r h = cc

pub checked_job-IsJob :
    (py : Runtime) (response : Json) (sandbox_id job_id : String) (r : JobRecord)
    → checked_job py response sandbox_id job_id ≡ ok r
    → IsJob r × (r.sandbox_id ≡ sandbox_id) × (r.job_id ≡ job_id)
unfolding checked_job
checked_job-IsJob py response sandbox_id job_id r h =
    let (q, at, same) = >>=-eq-ok (job_record py response) _ h in
    let is : q ≡ r = ground arith in
    let j : IsJob r = subst IsJob is (job_record-IsJob py response q at) in
    (j, ground (arith, eq_iff q.sandbox_id sandbox_id), ground (arith, eq_iff q.job_id job_id))

-- The record of a status read that is accepted is a job's, and of the job that was asked for.
pub job_status_answer-IsJob :
    (py : Runtime) (response : Json) (headers : Headers) (sandbox_id job_id : String)
    (r : JobRecord)
    → job_status_answer py response headers sandbox_id job_id ≡ ok r
    → IsJob r
      × (r.sandbox_id ≡ sandbox_id)
      × (r.job_id ≡ job_id)
      × (r.retry_after ≡ retry_after py headers)
unfolding job_status_answer
job_status_answer-IsJob py response headers sandbox_id job_id r h =
    let (q, at, same) = >>=-eq-ok (checked_job py response sandbox_id job_id) _ h in
    let (j, s, k) = checked_job-IsJob py response sandbox_id job_id q at in
    let is : record q { retry_after = retry_after py headers } ≡ r = ground arith in
    subst
      (λ r.
        IsJob r
        × (r.sandbox_id ≡ sandbox_id)
        × (r.job_id ≡ job_id)
        × (r.retry_after ≡ retry_after py headers))
      is
      (
        record {
          has_sandbox = j.has_sandbox;
          generation = j.generation;
          has_job = j.has_job;
          known_state = j.known_state;
        },
        s,
        k,
        refl,
      )
