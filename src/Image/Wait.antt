-- ===== src/Image/Wait.antt =====
-- `SandboxClient.wait_for_images` (src/ucloud_sandboxes_sdk/client.py).
use ucloud_sandboxes_sdk.Prelude.{
  ℕ, zero, suc, ◌+◌, min, ℤ, pos, String, Bool, Option, none, some, List, [], ◌∷◌, eqb, leb, length,
  if◌then◌else◌,
}
use ucloud_sandboxes_sdk.Json.{Json, arr, obj, Fields, end, field, get, has, in_texts}
use ucloud_sandboxes_sdk.Errors.{
  Exception, api_error, type_error, timeout_error, timed_out, key_error, attribute_error,
  invalid_answer, Result, ok, err, ◌>>=◌,
}
use ucloud_sandboxes_sdk.Clock.{remaining}
use ucloud_sandboxes_sdk.Transport.Loop.{Ended, returned, raised, out_of_fuel}
use ucloud_sandboxes_sdk.Build.State.{is_transient}
use ucloud_sandboxes_sdk.Image.Names.{image_names}
use ucloud_sandboxes_sdk.Image.Ensure.{Reply, Ensured, update, ensure_images}

abbrev pub image_states_settled : List String
image_states_settled = "ready" ∷ "failed" ∷ "unknown" ∷ []

-- `state in IMAGE_STATES_SETTLED`: a list or a dict has no hash.
abbrev pub is_settled : Json → Result Exception Bool
is_settled (arr _) = err (type_error (invalid_answer "state"))
is_settled (obj _) = err (type_error (invalid_answer "state"))
is_settled state = ok (in_texts state image_states_settled)

-- `status.get("state") in IMAGE_STATES_SETTLED`.
abbrev pub settles : Json → Result Exception Bool
settles (obj status) = is_settled (get status "state")
settles _ = err (attribute_error "get")

-- The statuses that are settled.
unfoldable pub settled_of : Fields → Result Exception Fields
settled_of end = ok end
settled_of (field name status fs) = do
  is ← settles status
  rest ← settled_of fs
  ok (if is then field name status rest else rest)

-- `[name for name in names if name not in settled]`.
abbrev pub pending : List String → Fields → List String
pending [] settled = []
pending (name ∷ names) settled =
    let rest = pending names settled in if has settled name then rest else name ∷ rest

-- `len(settled)`.
abbrev pub count_keys : Fields → ℕ
count_keys end = 0
count_keys (field _ _ fs) = suc (count_keys fs)

-- `{name: settled[name] for name in names}`.
unfoldable pub pick : List String → Fields → Result Exception Fields
pick [] settled = ok end
pick (name ∷ names) settled =
    if has settled name
    then (do rest ← pick names settled; ok (field name (get settled name) rest))
    else err (key_error name)

-- The statuses of a poll: a transient error is a poll without statuses.
unfoldable pub statuses_polled : Result Exception Fields → Result Exception Fields
unfolding is_transient
statuses_polled (err (api_error e)) = if is_transient e then ok end else err (api_error e)
statuses_polled r = r

-- What `on_status` is called with, and how the wait ends.
pub record Waited : Type 0 where
  pub reported : List Fields
  pub end : Ended Fields

abbrev pub ended : Ended Fields → Waited
ended e = record { reported = []; end = e }

abbrev pub reports : Fields → Waited → Waited
reports statuses w = record w { reported = statuses ∷ w.reported }

abbrev pub left_of : Option ℕ → ℕ → Option ℤ
left_of d now = elim (remaining d now) [ none ↦ none | some left ↦ some (pos left) ]

module _ (server : ℕ → List String → Option ℕ → Reply) (overslept : ℕ → ℕ) (names : List String)
    (d : Option ℕ) (poll_interval : ℕ) where
  -- After a poll at the time `now`: `rest` goes on after a pause.
  unfoldable pub after_statuses : ℕ → Fields → (ℕ → Waited) → Waited
  unfolding pick remaining
  after_statuses now settled rest =
      if eqb (count_keys settled) (length names)
      then elim (pick names settled) [ err e ↦ ended (raised e) | ok all ↦ ended (returned all) ]
      else elim (remaining d now) [
        | none ↦ rest poll_interval
        | some left ↦
            if leb left 0
            then ended (raised (timeout_error (timed_out "images")))
            else rest (min poll_interval left)
      ]

  -- After `ensure_images`; `rest` takes the settled statuses too.
  unfoldable pub after_ensure : Ensured → Fields → (Fields → ℕ → Waited) → Waited
  unfolding statuses_polled settled_of after_statuses
  after_ensure e settled rest = elim (statuses_polled e.outcome) [
    | err x ↦ ended (raised x)
    | ok current ↦ elim (settled_of current) [
      | err x ↦ ended (raised x)
      | ok fresh ↦
          let known = update settled fresh in
          reports (update current known) (after_statuses e.at known (rest known))
    ]
  ]

  -- The loop, with the next request's number.
  unfoldable pub images_loop : ℕ → ℕ → ℕ → Fields → Waited
  unfolding after_ensure ensure_images
  images_loop zero number now settled = ended out_of_fuel
  images_loop (suc fuel) number now settled =
      let e = ensure_images server (left_of d now) (pending names settled) number now in
      after_ensure e settled
        λ known pause. images_loop fuel e.number (e.at + (pause + overslept e.number)) known

-- `wait_for_images`, from its deadline on.
unfoldable pub wait_for_images :
    (ℕ → List String → Option ℕ → Reply) → (ℕ → ℕ) → List String → Option ℕ → ℕ → ℕ → ℕ → Waited
unfolding image_names images_loop
wait_for_images server overslept names d poll_interval fuel now = elim (image_names names) [
  | err e ↦ ended (raised e)
  | ok given ↦ images_loop server overslept given d poll_interval fuel 0 now end
]
