-- ===== src/Examples/Images.antt =====
-- Images by name: a wait with two polls, and an index of three rows.
use ucloud_sandboxes_sdk.Prelude.{
  ℕ, zero, suc, ◌≤◌, ◌<◌, pos, String, true, Option, none, some, List, [], ◌∷◌, ◌≡◌, ◌≢◌, flatten,
  All, refl, arith, if◌then◌else◌,
}
use ucloud_sandboxes_sdk.Json.{
  Json, null, bool, str, int, obj, arr, Fields, end, field, get, of_list, equals_text, truthy,
}
use ucloud_sandboxes_sdk.Errors.{plain, Exception, api_error, os_failure, Result, ok, err}
use ucloud_sandboxes_sdk.Clock.{deadline, remaining}
use ucloud_sandboxes_sdk.Image.Recipes.{
  Context, ImageRecipe, GatewayCall, get_context, post_recipes, reference_matches, existing_of,
  image_recipes, count_changed, recipe_registration, upload_build_context, upload_contexts,
  post_batches, post_rows, register_image_recipes,
}
use ucloud_sandboxes_sdk.Image.Held.{IsHeld}
use ucloud_sandboxes_sdk.Image.Registered.{Posts, register_image_recipes-AllHeld}
use ucloud_sandboxes_sdk.Transport.Loop.{returned, out_of_fuel}
use ucloud_sandboxes_sdk.Image.Names.{image_names, IsBatch}
use ucloud_sandboxes_sdk.Image.Ensure.{
  Reply, image_statuses, ensure_batches, ensure_images, ensure_images-IsBatch,
}
use ucloud_sandboxes_sdk.Image.Wait.{
  settled_of, pick, statuses_polled, after_statuses, after_ensure, images_loop, wait_for_images,
}
use ucloud_sandboxes_sdk.Image.Settled.{
  keys, AllSettled, wait_for_images-AllSettled, wait_for_images_ends,
}
use ucloud_sandboxes_sdk.Image.Index.{
  after_page, list_from, image_index_page_size, query, image_index_names,
}
use ucloud_sandboxes_sdk.Image.Pages.{IsPage, Serves, all_of, image_index_names-rows}

abbrev state : String → Json
state s = obj (field "state" (str s) end)

abbrev ready : Fields
ready = field "a" (state "ready") (field "b" (state "failed") end)

-- "a" is still building at the first request, and ready from then on.
abbrev gateway : ℕ → List String → Option ℕ → Reply
gateway zero names left = record {
  answer =
      ok (field "images" (obj (field "a" (state "building") (field "b" (state "failed") end))) end);
  took = 4;
}
gateway (suc k) names left = record {
  answer = ok (field "images" (obj (field "a" (state "ready") end)) end);
  took = 4;
}

abbrev on_time : ℕ → ℕ
on_time k = 0

asks_once :
    (ensure_images gateway none ("a" ∷ "b" ∷ "a" ∷ []) 0 0).outcome
    ≡ ok (field "a" (state "building") (field "b" (state "failed") end))
unfolding ensure_images image_names ensure_batches image_statuses deadline remaining
asks_once = refl

ensure_images-IsBatch_example :
    (flatten (ensure_images gateway none ("a" ∷ "b" ∷ "a" ∷ []) 0 0).asked ≡ "a" ∷ "b" ∷ [])
    × All (IsBatch 1000) (ensure_images gateway none ("a" ∷ "b" ∷ "a" ∷ []) 0 0).asked
ensure_images-IsBatch_example =
    ensure_images-IsBatch gateway none ("a" ∷ "b" ∷ "a" ∷ []) 0 0 _ asks_once

waits_for_images :
    (wait_for_images gateway on_time ("a" ∷ "b" ∷ []) (some 5000000) 1000000 3 0).end
    ≡ returned ready
unfolding wait_for_images images_loop after_ensure after_statuses pick settled_of statuses_polled
    ensure_images image_names ensure_batches image_statuses deadline remaining
waits_for_images = refl

wait_for_images-AllSettled_example : (keys ready ≡ "a" ∷ "b" ∷ []) × AllSettled ready
wait_for_images-AllSettled_example =
    wait_for_images-AllSettled gateway on_time ("a" ∷ "b" ∷ []) (some 5000000) 1000000 3 0 ready
      waits_for_images

wait_for_images_ends_example :
    (wait_for_images gateway on_time ("a" ∷ "b" ∷ []) (some 3) 1000000 4 0).end ≢ out_of_fuel
wait_for_images_ends_example =
    wait_for_images_ends gateway on_time ("a" ∷ "b" ∷ []) 3 1000000 4 0 (omega arith) (omega arith)

abbrev rows : List Json
rows = str "x" ∷ str "y" ∷ str "z" ∷ []

abbrev cursor : ℕ → Json
cursor zero = str ""
cursor (suc zero) = str "x"
cursor (suc (suc zero)) = str "y"
cursor _ = str "z"

-- The page that follows a number of rows; the last row has no `next`.
abbrev page : ℕ → Fields
page zero = field "names" (arr (of_list (str "x" ∷ str "y" ∷ []))) (field "next" (str "y") end)
page (suc zero) = field "names" (arr (of_list (str "y" ∷ str "z" ∷ []))) end
page (suc (suc zero)) = field "names" (arr (of_list (str "z" ∷ []))) end
page _ = field "names" (arr (of_list [])) end

abbrev index : Fields → Result Exception Fields
index q =
    if equals_text (get q "after") "x"
    then ok (page 1)
    else if equals_text (get q "after") "y"
    then ok (page 2)
    else if equals_text (get q "after") "z"
    then ok (page 3)
    else ok (page 0)

lists_rows : image_index_names index null null (int (pos 2)) 4 ≡ all_of rows
unfolding image_index_names list_from after_page image_index_page_size
lists_rows = refl

page-IsPage : (at : ℕ) → at ≤ 3 → IsPage rows cursor 2 at (page at)
page-IsPage zero h = record { names = refl; goes_on = λ p. refl; last = λ p. cc }
page-IsPage (suc zero) h = record { names = refl; goes_on = λ p. cc; last = λ p. refl }
page-IsPage (suc (suc zero)) h = record { names = refl; goes_on = λ p. cc; last = λ p. refl }
page-IsPage (suc (suc (suc zero))) h = record { names = refl; goes_on = λ p. cc; last = λ p. refl }
page-IsPage (suc (suc (suc (suc n)))) h = absurd (omega (arith, h))

answers_page : (at : ℕ) → at ≤ 3 → index (query null null (cursor at) 2) ≡ ok (page at)
answers_page zero h = refl
answers_page (suc zero) h = refl
answers_page (suc (suc zero)) h = refl
answers_page (suc (suc (suc zero))) h = refl
answers_page (suc (suc (suc (suc n)))) h = absurd (omega (arith, h))

cursor_truthy : (at : ℕ) → 0 < at → truthy (cursor at) ≡ true
cursor_truthy zero h = absurd (omega (arith, h))
cursor_truthy (suc zero) h = refl
cursor_truthy (suc (suc zero)) h = refl
cursor_truthy (suc (suc (suc n))) h = refl

index-Serves : Serves index null null rows cursor 2
index-Serves = record {
  page = page;
  is_page = page-IsPage;
  answers = answers_page;
  starts = refl;
  some_cursor = cursor_truthy;
}

two_rows : image_index_page_size (int (pos 2)) ≡ ok 2
unfolding image_index_page_size
two_rows = refl

image_index_names-rows_example : image_index_names index null null (int (pos 2)) 4 ≡ all_of rows
image_index_names-rows_example =
    image_index_names-rows index null null (int (pos 2)) rows cursor 2 4 two_rows index-Serves
      (omega arith)

abbrev recipe : ImageRecipe
recipe = record {
  name = "a";
  context_path = "ctx";
  dockerfile = "Dockerfile";
  build_args = end;
  retention = "cached";
}

abbrev archive_of : String → Result Exception Context
archive_of path = ok (record { digest = "sha256:0"; size = 12 })

-- The gateway has no context yet, takes it, and registers the recipe.
abbrev registry : List GatewayCall → GatewayCall → Result Exception Fields
registry calls (get_context digest) =
    err (api_error (record (plain os_failure null) { status_code = some 404 }))
registry calls (post_recipes batch) = ok (
    field "recipes"
      (arr (of_list (obj (field "name" (str "a") (field "changed" (bool true) end)) ∷ []))) end)
registry calls _ = ok end

abbrev registered : Fields
registered = field "registered" (int (pos 1)) (
    field "changed" (int (pos 1)) (
      field "recipes"
        (arr (of_list (obj (field "name" (str "a") (field "changed" (bool true) end)) ∷ []))) end))

registers : (register_image_recipes registry archive_of (recipe ∷ []) []).0 ≡ ok registered
unfolding register_image_recipes image_recipes upload_contexts upload_build_context existing_of
    reference_matches post_rows post_batches recipe_registration count_changed
registers = refl

register_image_recipes-AllHeld_example :
    (held : List GatewayCall) × All (IsHeld registry archive_of held) (recipe ∷ [])
    × Posts registry archive_of held (register_image_recipes registry archive_of (recipe ∷ []) []).1
register_image_recipes-AllHeld_example =
    register_image_recipes-AllHeld registry archive_of (recipe ∷ []) [] registered registers
