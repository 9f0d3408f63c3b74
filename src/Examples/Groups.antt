-- ===== src/Examples/Groups.antt =====
-- A group create that the gateway answers at its second request.
use ucloud_sandboxes_sdk.Prelude.{ℕ, zero, suc, ◌<◌, some, [], ◌∷◌, pos, ◌≡◌, ◌≢◌, refl, arith}
use ucloud_sandboxes_sdk.Json.{Fields, obj, str, int, arr, cons, nil, field, end}
use ucloud_sandboxes_sdk.Errors.{api_error, ok, err, plain, unreachable}
use ucloud_sandboxes_sdk.Clock.{deadline, remaining, required_remaining}
use ucloud_sandboxes_sdk.Retry.Paths.{is_method, is_path}
use ucloud_sandboxes_sdk.Retry.Delay.{header, retry_after, retry_delay, client_backoff, max_delay}
use ucloud_sandboxes_sdk.Retry.Policy.{
  should_retry, pre_dispatch_fence, stable_create, attempt_limit, is_last_attempt, retry_status,
  says_retryable,
}
use ucloud_sandboxes_sdk.Group.Status.{
  Status, placed, is_deleted, complete, parse_member, parse_members, status_from_payload,
}
use ucloud_sandboxes_sdk.Group.Create.{
  State, Answer, Handle, created, out_of_fuel, keep_records, record_of, accept, error_group,
  repeat_after, group_retry_delay, handles, finish, conclude, create_round, create_loop, create,
  start,
}
use ucloud_sandboxes_sdk.Group.Records.{latest, accept-latest}
use ucloud_sandboxes_sdk.Group.Placed.{IsCreated, create-IsCreated}
use ucloud_sandboxes_sdk.Prelude.{codes}
use ucloud_sandboxes_sdk.Group.Request.{
  is_group_id, rest_matches, sandbox_group_id, IsGroupId, sandbox_group_id-IsGroupId,
}
use ucloud_sandboxes_sdk.Group.Ends.{create_ends}
use ucloud_sandboxes_sdk.Examples.Values.{python, busy}

-- Member `g-0000` is placed, with its record, and `g-0001` was deleted.
abbrev answer : Fields
answer = field "group" (obj (field "id" (str "g") end)) (
    field "sandboxes"
      (arr (
        cons
          (obj (
            field "id" (str "g-0000") (
              field "status" (str "running")
                (field "sandbox" (obj (field "generation" (int (pos 1)) end)) end))))
          (cons (obj (field "id" (str "g-0001") (field "status" (str "deleted") end))) nil)))
      end)

abbrev server : ℕ → Answer
server zero = record {
  outcome = err (api_error (record (plain unreachable busy) { status_code = some 503 }));
  took = 5;
  jitter = 0;
  overslept = 1;
}
server (suc k) = record { outcome = ok answer; took = 5; jitter = 0; overslept = 1 }

server_takes_time : (k : ℕ) → 0 < (server k).took
server_takes_time zero = omega arith
server_takes_time (suc k) = omega arith

create_ends_example : (create python server (pos 600) 601 40).0 ≢ out_of_fuel
create_ends_example = create_ends python server (pos 600) 601 40 server_takes_time (omega arith)

abbrev the_handle : Handle
the_handle = record { id = "g-0000"; sandbox = field "generation" (int (pos 1)) end }

creates : (create python server (pos 1000000) 4 40).0 ≡ created (the_handle ∷ [])
unfolding create create_loop create_round conclude finish handles complete placed is_deleted accept
    keep_records status_from_payload parse_members parse_member group_retry_delay error_group
    repeat_after deadline remaining required_remaining should_retry retry_delay retry_after header
    client_backoff max_delay is_method is_path pre_dispatch_fence stable_create attempt_limit
    is_last_attempt retry_status says_retryable
creates = refl

create-IsCreated_example :
    IsCreated python server (the_handle ∷ []) (create python server (pos 1000000) 4 40).1
create-IsCreated_example =
    create-IsCreated python server (pos 1000000) 4 40 (the_handle ∷ []) creates

unfoldable accepted : Status × State
accepted = elim (accept python (obj answer) start) [
  | err x ↦ (record { id = ""; count = pos 0; state = ""; members = []; payload = obj end }, start)
  | ok r ↦ r
]

accepts : accept python (obj answer) start ≡ ok (accepted.0, accepted.1)
unfolding accepted accept keep_records status_from_payload parse_members parse_member
accepts = refl

accept-latest_example :
    record_of accepted.1.records "g-0000"
    ≡ latest "g-0000" accepted.0.members (record_of start.records "g-0000")
accept-latest_example =
    accept-latest python (obj answer) start accepted.1 accepted.0 "g-0000" accepts

-- An id with a newline at its end is accepted.
newline_accepted : sandbox_group_id (str "g1\n") ≡ ok "g1\n"
unfolding sandbox_group_id is_group_id rest_matches
newline_accepted = refl

sandbox_group_id-IsGroupId_example : IsGroupId (codes "g1\n")
sandbox_group_id-IsGroupId_example = sandbox_group_id-IsGroupId (str "g1\n") "g1\n" newline_accepted
