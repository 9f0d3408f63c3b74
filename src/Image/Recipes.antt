-- ===== src/Image/Recipes.antt =====
-- Build contexts and recipes (src/ucloud_sandboxes_sdk/client.py: `_upload_build_context`,
-- `register_image_recipes`, `submit_image_build`). What the gateway answers to a call is a function
-- of the calls before it, the newest first. The archive of a recipe's context is a parameter.
use ucloud_sandboxes_sdk.Prelude.{
  ℕ, suc, String, Bool, false, none, some, List, [], ◌∷◌, ◌++◌, ◌&&◌, eqb, ltb, length, is_empty,
  is_nat, pos, map, if◌then◌else◌,
}
use ucloud_sandboxes_sdk.Json.{
  Json, null, bool, int, str, arr, obj, Fields, end, field, get, integer, equals_text, of_list,
  truthy,
}
use ucloud_sandboxes_sdk.Errors.{
  plain, Exception, api_error, value_error, attribute_error, invalid_argument, too_large, Result,
  ok, err, ◌>>=◌,
}
use ucloud_sandboxes_sdk.Transport.Requests.{max_file_body}
use ucloud_sandboxes_sdk.Build.State.{image_build_response}
use ucloud_sandboxes_sdk.Image.Names.{distinct, image_recipe_batch, batches}
use ucloud_sandboxes_sdk.Image.Index.{iterated}

-- The archive of a build context: its digest and size.
pub record Context : Type 0 where
  pub digest : String
  pub size : ℕ

-- `ImageRecipe`, without its check; the arguments of the build are a dict.
pub record ImageRecipe : Type 0 where
  pub name : String
  pub context_path : String
  pub dockerfile : String
  pub build_args : Fields
  pub retention : String

pub data GatewayCall : Type 0 where
  get_context : String → GatewayCall
  put_context : Context → GatewayCall
  post_recipes : List Json → GatewayCall
  post_build : Fields → GatewayCall

-- What is come to, and the calls, the newest first.
abbrev pub Sends {ℓ} : Type ℓ → Type ℓ
Sends A = List GatewayCall → Result Exception A × List GatewayCall

abbrev pub gives {ℓ} : {A : Type ℓ} → Result Exception A → Sends A
gives r calls = (r, calls)

abbrev pub then_send {ℓ κ} : {A : Type ℓ} {B : Type κ} → Sends A → (A → Sends B) → Sends B
then_send m f calls = elim (m calls).0 [ err e ↦ (err e, (m calls).1) | ok a ↦ f a (m calls).1 ]

-- `_build_context_reference_matches`.
unfoldable pub reference_matches : Json → Context → Bool
reference_matches (obj v) c =
    equals_text (get v "digest") c.digest
    && elim (integer (get v "size")) [ none ↦ false | some stored ↦ is_nat stored c.size ]
reference_matches _ c = false

-- `existing`: None where the gateway answers 404.
unfoldable pub existing_of : Result Exception Fields → Result Exception Json
existing_of (ok reference) = ok (obj reference)
existing_of (err (api_error e)) = elim e.status_code [
  | none ↦ err (api_error e)
  | some status ↦ if eqb status 404 then ok null else err (api_error e)
]
existing_of (err e) = err e

-- `ImageRecipe._registration`.
abbrev pub recipe_row : ImageRecipe → Context → Json
recipe_row r c = obj (
    field "name" (str r.name) (
      field "context_archive_digest" (str c.digest) (
        field "context_archive_size" (int (pos c.size)) (
          field "dockerfile" (str r.dockerfile)
            (field "build_args" (obj r.build_args) (field "retention" (str r.retention) end))))))

-- `_image_recipes`.
unfoldable pub image_recipes : List ImageRecipe → Result Exception (List ImageRecipe)
image_recipes recipes =
    if is_empty recipes
    then err (value_error (invalid_argument "recipes"))
    else if eqb (length (distinct (map (λ r. r.name) recipes))) (length recipes)
    then ok recipes
    else err (value_error (invalid_argument "recipe names"))

-- `sum(1 for row in registered if row.get("changed"))`.
unfoldable pub count_changed : List Json → Result Exception ℕ
count_changed [] = ok 0
count_changed (obj row ∷ rows) = do
  more ← count_changed rows
  ok (if truthy (get row "changed") then suc more else more)
count_changed (_ ∷ rows) = err (attribute_error "get")

-- `_image_recipe_registration`.
unfoldable pub recipe_registration : List Json → Result Exception Fields
unfolding count_changed
recipe_registration registered = do
  changed ← count_changed registered
  ok (
      field "registered" (int (pos (length registered)))
        (field "changed" (int (pos changed)) (field "recipes" (arr (of_list registered)) end)))

-- The limit of `_image_build_request`: `MAX_FILE_BODY_BYTES`.
abbrev pub within_body_limit : Context → Result Exception Context
within_body_limit c =
    if ltb max_file_body c.size
    then err (api_error (plain (too_large max_file_body) null))
    else ok c

module _ (server : List GatewayCall → GatewayCall → Result Exception Fields) where
  abbrev pub make_call : GatewayCall → Sends Fields
  make_call c calls = (server calls c, c ∷ calls)

  abbrev pub look_up : String → Sends Json
  look_up digest calls =
      (existing_of (server calls (get_context digest)), get_context digest ∷ calls)

  abbrev pub put_unless_held : Context → Json → Sends (Unit {0})
  put_unless_held c existing =
      if reference_matches existing c
      then gives (ok tt)
      else then_send (make_call (put_context c)) (λ answer. gives (ok tt))

  -- `_upload_build_context`.
  unfoldable pub upload_build_context : Context → Sends (Unit {0})
  unfolding existing_of reference_matches
  upload_build_context c = then_send (look_up c.digest) (put_unless_held c)

  module _ (archive_of : String → Result Exception Context) where
    abbrev pub context_of : ImageRecipe → Result Exception Context
    context_of r = archive_of r.context_path >>= within_body_limit

    abbrev pub and_row : ImageRecipe → Context → List Json → Sends (List Json)
    and_row r c rows = gives (ok (recipe_row r c ∷ rows))

    -- A recipe's row, and `rest` after its context is uploaded.
    abbrev pub upload_then : ImageRecipe → Sends (List Json) → Context → Sends (List Json)
    upload_then r rest c =
        then_send (upload_build_context c) (λ uploaded. then_send rest (and_row r c))

    -- The rows of `register_image_recipes`.
    unfoldable pub upload_contexts : List ImageRecipe → Sends (List Json)
    unfolding upload_build_context
    upload_contexts [] = gives (ok [])
    upload_contexts (r ∷ rs) =
        let rest = upload_contexts rs in then_send (gives (context_of r)) (upload_then r rest)

    -- `registered.extend(result.get("recipes") or [])`, and `more` behind it.
    abbrev pub extend_then : Sends (List Json) → Fields → Sends (List Json)
    extend_then more result =
        then_send (gives (iterated (get result "recipes")))
          λ some_rows. then_send more (λ rows. gives (ok (some_rows ++ rows)))

    -- The rows registered by the batches.
    unfoldable pub post_batches : List (List Json) → Sends (List Json)
    post_batches [] = gives (ok [])
    post_batches (batch ∷ rest) =
        let more = post_batches rest in
        then_send (make_call (post_recipes batch)) (extend_then more)

    unfoldable pub post_rows : List Json → Sends Fields
    unfolding post_batches recipe_registration
    post_rows rows =
        then_send (post_batches (batches image_recipe_batch rows))
          λ registered. gives (recipe_registration registered)

    unfoldable pub register_image_recipes : List ImageRecipe → Sends Fields
    unfolding image_recipes upload_contexts post_rows
    register_image_recipes recipes =
        then_send (gives (image_recipes recipes))
          λ given. then_send (upload_contexts given) post_rows

  -- `submit_image_build`, from the context and the payload of `_image_build_request` on.
  unfoldable pub submit_build : Context → Fields → Sends Fields
  unfolding upload_build_context image_build_response
  submit_build c payload = then_send (upload_build_context c) λ uploaded.
      then_send (make_call (post_build (field "wait" (bool false) payload)))
        λ submitted. gives (image_build_response submitted)
