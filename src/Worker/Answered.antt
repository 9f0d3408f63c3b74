-- ===== src/Worker/Answered.antt =====
-- A request that was handled is answered once (src/ucloud_sandboxes_sdk/relay.py,
-- `_handle_sync_request`).
use ucloud_sandboxes_sdk.Prelude.{String, true, false, Option, some, List, [], ◌∷◌, ◌≡◌, All, ℕ}
use ucloud_sandboxes_sdk.Errors.{ApiError, Exception, Result, ok, err}
use ucloud_sandboxes_sdk.Relay.Request.{Request}
use ucloud_sandboxes_sdk.Relay.Poll.{relay_request_already_completed}
use ucloud_sandboxes_sdk.Worker.Handle.{
  is_streaming_model_request, Reply, Call, error_request, failure_report,
}

abbrev pub IsErrorCall : Call → Type 0
IsErrorCall c = (status : ℕ) × (c ≡ error_request status)

module _ (handle : Request → Result Exception Reply) (upstream : Option String)
    (client : Call → Result Exception (Unit {0})) where
  -- The calls made for a request of which the last one, and only that, was accepted.
  pub data AnsweredOnce : List Call → Type 0 where
    at_once : (c : Call) → client c ≡ ok tt → AnsweredOnce (c ∷ [])
    reported :
        (c : Call) (e : Exception)
        → client c ≡ err e
        → client failure_report ≡ ok tt
        → AnsweredOnce (c ∷ failure_report ∷ [])
    handler_failed : client failure_report ≡ ok tt → AnsweredOnce (failure_report ∷ [])

  -- What the body of the `try` has tried: one call, or none where the handler raised.
  data Tried (r : Request) : Result Exception (Unit {0}) × List Call → Type 0 where
    called :
        (c : Call) (result : Result Exception (Unit {0}))
        → client c ≡ result
        → (is_streaming_model_request r ≡ true → c ≡ error_request 400)
        → Tried r (result, c ∷ [])
    raised : (e : Exception) → is_streaming_model_request r ≡ false → Tried r (err e, [])

  -- The request was answered once, by an error where it wants a stream, and its lease was not lost
  -- before the answer_request was complete.
  pub record Answers (renewal : Option ApiError) (r : Request) (calls : List Call) : Type 0 where
    pub once : AnsweredOnce calls
    pub no_stream : is_streaming_model_request r ≡ true → All IsErrorCall calls
    pub lease_kept : (e : ApiError) → renewal ≡ some e → relay_request_already_completed e ≡ true
