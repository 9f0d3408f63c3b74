-- ===== src/Examples/Values.antt =====
-- Values that the examples share: an interpreter's readings of a few texts, and JSON objects.
use ucloud_sandboxes_sdk.Prelude.{ℕ, String, none, some, [], ◌∷◌, pos, true, ◌==◌, if◌then◌else◌}
use ucloud_sandboxes_sdk.Json.{Json, str, bool, int, obj, arr, cons, nil, Fields, end, field}
use ucloud_sandboxes_sdk.Runtime.{Runtime}
use ucloud_sandboxes_sdk.Transport.Decode.{Headers}

-- Reads "2" as a number, "{}" as an object, and "aGk=" as "hi".
abbrev pub python : Runtime
python = record {
  float_of = λ s. if s == "2" then some (pos 2000000) else none;
  date_delay = λ s. none;
  int_of = λ s. if s == "2" then some (pos 2) else none;
  text_of = λ v. "";
  json_of = λ s. if s == "{}" then some (obj end) else none;
  base64_of = λ s. if s == "aGk=" then some (104 ∷ 105 ∷ []) else some [];
  dumps_of = λ v. some (v, []);
}

abbrev pub exec_path : String
exec_path = "/v1/sandboxes/a/exec"

-- `{"retryable": true, "error_code": "node_startup_busy"}`.
abbrev pub busy : Json
busy = obj (field "retryable" (bool true) (field "error_code" (str "node_startup_busy") end))

abbrev pub after_two_seconds : Headers
after_two_seconds = ("Retry-After", "2") ∷ []

-- An event of an exec session.
abbrev pub event : ℕ → Json
event n =
    obj
      (field "sequence" (int (pos n)) (field "stream" (str "stdout") (field "data" (str "x") end)))

abbrev pub ended_session : Json
ended_session = obj (field "status" (str "exited") (field "final_sequence" (int (pos 2)) end))

-- Two events and the session that ended with them.
abbrev pub events_payload : Fields
events_payload =
    field "events" (arr (cons (event 1) (cons (event 2) nil))) (field "session" ended_session end)

-- A job of sandbox "a" that is over.
abbrev pub job_fields : Fields
job_fields = field "sandbox_id" (str "a") (
    field "sandbox_generation" (int (pos 1)) (
      field "job_id" (str "j") (
        field "spec_sha256" (str "") (
          field "state" (str "exited") (
            field "exit_code" (int (pos 0))
              (field "stdout_bytes" (int (pos 2)) (field "cursor" (str "c1") end)))))))
