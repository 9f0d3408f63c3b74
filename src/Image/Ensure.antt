-- ===== src/Image/Ensure.antt =====
-- `SandboxClient.ensure_images` (src/ucloud_sandboxes_sdk/client.py). The gateway is a function from
-- a request's number, its names and its timeout.
use ucloud_sandboxes_sdk.Prelude.{
  ℕ, suc, ◌+◌, ◌≤◌, ℤ, String, Option, none, some, List, [], ◌∷◌, ◌==◌, if◌then◌else◌, ◌||◌, any,
  is_empty, flatten, All, ◌≡◌, refl, sym, ap, subst, ◌∙◌, inl, inr, Bool-cases, arith,
}
use ucloud_sandboxes_sdk.Json.{Json, Fields, end, field, obj, get, dict}
use ucloud_sandboxes_sdk.Errors.{
  Exception, api_error, plain, invalid_answer, Result, ok, err, ◌>>=◌, Result-cases,
}
use ucloud_sandboxes_sdk.Clock.{deadline, remaining}
use ucloud_sandboxes_sdk.Image.Names.{
  distinct, image_names, image_recipe_batch, batches, IsBatch, batches-flatten, batches-IsBatch,
}

-- `statuses[name] = status`: a name that is there keeps its place.
abbrev pub put_status : Fields → String → Json → Fields
put_status end name v = field name v end
put_status (field k u fs) name v =
    let rest = put_status fs name v in if k == name then field k v fs else field k u rest

-- `statuses.update(more)`.
abbrev pub update : Fields → Fields → Fields
update fs end = fs
update fs (field k v more) = update (put_status fs k v) more

-- `_image_statuses`, of the object that the transport returns.
unfoldable pub image_statuses : Fields → Result Exception Fields
image_statuses result = elim (dict (get result "images")) [
  | none ↦ err (api_error (plain (invalid_answer "image ensure payload") (obj result)))
  | some images ↦ ok images
]

pub record Reply : Type 0 where
  pub answer : Result Exception Fields
  pub took : ℕ

-- The outcome, the names that each request asked for, the time and the next request's number.
pub record Ensured : Type 0 where
  pub outcome : Result Exception Fields
  pub asked : List (List String)
  pub at : ℕ
  pub number : ℕ

abbrev pub ensured : Result Exception Fields → ℕ → ℕ → Ensured
ensured r number at = record { outcome = r; asked = []; at = at; number = number }

abbrev pub asks : List String → Ensured → Ensured
asks batch e = record e { asked = batch ∷ e.asked }

module _ (server : ℕ → List String → Option ℕ → Reply) where
  -- The loop over the batches.
  unfoldable pub ensure_batches : Option ℕ → List (List String) → ℕ → ℕ → Fields → Ensured
  unfolding remaining
  ensure_batches d [] number now statuses = ensured (ok statuses) number now
  ensure_batches d (batch ∷ rest) number now statuses =
      let reply = server number batch (remaining d now) in
      let then_at = now + reply.took in
      asks batch (elim (reply.answer >>= image_statuses) [
        | err e ↦ ensured (err e) (suc number) then_at
        | ok images ↦ ensure_batches d rest (suc number) then_at (update statuses images)
      ])

  -- `ensure_images`, at the time `now` and with the number of its first request.
  unfoldable pub ensure_images : Option ℤ → List String → ℕ → ℕ → Ensured
  unfolding image_names ensure_batches deadline
  ensure_images timeout names number now = elim (image_names names) [
    | err e ↦ ensured (err e) number now
    | ok given ↦
        ensure_batches (deadline timeout now) (batches image_recipe_batch given) number now end
  ]

-- Where the names are all asked for, each is, in order.
abbrev AsksFor : (List (List String)) → Ensured → Type 0
AsksFor names e = (statuses : Fields) → e.outcome ≡ ok statuses → e.asked ≡ names

ensure_batches-AsksFor :
    (server : ℕ → List String → Option ℕ → Reply) (d : Option ℕ) (names : List (List String))
    (number now : ℕ) (statuses : Fields)
    → AsksFor names (ensure_batches server d names number now statuses)
unfolding ensure_batches
ensure_batches-AsksFor server d [] number now statuses = λ out h. refl
ensure_batches-AsksFor server d (batch ∷ rest) number now statuses =
    let reply = server number batch (remaining d now) in
    elim (Result-cases (reply.answer >>= image_statuses)) [
      | inl (e, failed) ↦ rw (failed, ensure_batches) (λ out h. cc)
      | inr (images, got) ↦
          rw (got, ensure_batches)
            λ out h.
              ap (λ t. batch ∷ t)
                (ensure_batches-AsksFor server d rest (suc number) (now + reply.took)
                  (update statuses images) out h)
    ]

pub image_names-ok :
    (names given : List String) → image_names names ≡ ok given → given ≡ distinct names
unfolding image_names
image_names-ok names given h =
    elim (Bool-cases (is_empty (distinct names) || any (λ name. name == "") (distinct names))) [
      | inl bad ↦ absurd (ground arith)
      | inr fine ↦ ground arith
    ]

-- When `ensure_images` returns, the requests that it sent asked for at least one and at most a
-- thousand names each, and together for each name once, in the order of the first mentions.
pub ensure_images-IsBatch :
    (server : ℕ → List String → Option ℕ → Reply) (timeout : Option ℤ) (names : List String)
    (number now : ℕ) (statuses : Fields)
    → (ensure_images server timeout names number now).outcome ≡ ok statuses
    → (flatten (ensure_images server timeout names number now).asked ≡ distinct names)
      × All (IsBatch 1000) (ensure_images server timeout names number now).asked
unfolding ensure_images
ensure_images-IsBatch server timeout names number now statuses =
    elim (Result-cases (image_names names)) [
      | inl (e, bad) ↦ rw (bad, ensure_images) (λ h. cc)
      | inr (given, fine) ↦
          rw (fine, ensure_images)
            λ h.
              let same =
                ensure_batches-AsksFor server (deadline timeout now)
                  (batches image_recipe_batch given) number now end statuses h in
              (
                ap flatten same ∙ (batches-flatten given ∙ image_names-ok names given fine),
                subst (All (IsBatch 1000)) (sym same) (batches-IsBatch given),
              )
    ]

-- `ensure_images` does not turn the clock back.
ensure_batches-at :
    (server : ℕ → List String → Option ℕ → Reply) (d : Option ℕ) (names : List (List String))
    (number now : ℕ) (statuses : Fields)
    → now ≤ (ensure_batches server d names number now statuses).at
unfolding ensure_batches
ensure_batches-at server d [] number now statuses = omega arith
ensure_batches-at server d (batch ∷ rest) number now statuses =
    let reply = server number batch (remaining d now) in
    elim (Result-cases (reply.answer >>= image_statuses)) [
      | inl (e, failed) ↦ rw (failed, ensure_batches) (omega arith)
      | inr (images, got) ↦
          rw (got, ensure_batches)
            (omega (
              arith,
              ensure_batches-at server d rest (suc number) (now + reply.took)
                  (update statuses images),
            ))
    ]

pub ensure_images-at :
    (server : ℕ → List String → Option ℕ → Reply) (timeout : Option ℤ) (names : List String)
    (number now : ℕ)
    → now ≤ (ensure_images server timeout names number now).at
unfolding ensure_images
ensure_images-at server timeout names number now = elim (Result-cases (image_names names)) [
  | inl (e, bad) ↦ rw (bad, ensure_images) (omega arith)
  | inr (given, fine) ↦
      rw (fine, ensure_images)
        (ensure_batches-at server (deadline timeout now) (batches image_recipe_batch given) number
          now end)
]
