-- ===== src/Image/Names.antt =====
-- The names of images and their batches (src/ucloud_sandboxes_sdk/client.py: `_image_names`,
-- `SandboxClient.ensure_images`). The names are texts, as the annotation says.
use ucloud_sandboxes_sdk.Prelude.{
  ℕ, zero, suc, ◌+◌, ◌*◌, ◌-◌, ◌/◌, ◌≤◌, ◌<◌, String, List, [], ◌∷◌, ◌++◌, ◌==◌, ◌||◌, any, drop,
  flatten, length, is_empty, one_of, All, if◌then◌else◌, ◌≡◌, refl, ap, ◌∙◌, arith,
}
use ucloud_sandboxes_sdk.Errors.{Exception, value_error, invalid_argument, Result, ok, err}
use ucloud_sandboxes_sdk.Archive.Plan.{take}
use ucloud_sandboxes_sdk.Http.Chunks.{take-drop, length-take, length-drop}

-- `list(dict.fromkeys(names))`, after the names `seen`.
abbrev pub distinct_from : List String → List String → List String
distinct_from seen [] = []
distinct_from seen (name ∷ names) =
    if one_of name seen then distinct_from seen names else name ∷ distinct_from (name ∷ seen) names

abbrev pub distinct : List String → List String
distinct = distinct_from []

-- `_image_names`.
unfoldable pub image_names : List String → Result Exception (List String)
image_names names =
    if is_empty (distinct names) || any (λ name. name == "") (distinct names)
    then err (value_error (invalid_argument "image names"))
    else ok (distinct names)

abbrev pub image_recipe_batch : ℕ
image_recipe_batch = 1000

module _ {A : Type 0} (size : ℕ) where
  -- `xs[start:start + size]` for `count` starts, each `size` after the one before.
  abbrev pub slices : ℕ → List A → List (List A)
  slices zero xs = []
  slices (suc count) xs = take size xs ∷ slices count (drop size xs)

  -- What a batch satisfies.
  abbrev pub IsBatch : List A → Type 0
  IsBatch batch = (0 < length batch) × (length batch ≤ size)

-- The slices for the starts `range(0, len(xs), size)`, for a positive size.
abbrev pub batches : {A : Type 0} → ℕ → List A → List (List A)
batches size xs = slices size ((length xs + (size - 1)) / size) xs

slices-flatten :
    {A : Type 0} (size count : ℕ) (xs : List A)
    → length xs ≤ count * size
    → flatten (slices size count xs) ≡ xs
slices-flatten size zero [] h = refl
slices-flatten size zero (x ∷ xs) h = absurd (omega (arith, h))
slices-flatten size (suc count) xs h =
    ap (λ t. take size xs ++ t)
      (slices-flatten size count (drop size xs) (omega (arith, h, length-drop size xs)))
    ∙ take-drop size xs

slices-IsBatch :
    {A : Type 0} (size count : ℕ) (xs : List A)
    → 0 < size
    → count * size < length xs + size
    → All (IsBatch size) (slices size count xs)
slices-IsBatch size zero xs positive h = tt
slices-IsBatch size (suc count) xs positive h = (
  (omega (arith, h, length-take size xs), omega (arith, length-take size xs)),
  slices-IsBatch size count (drop size xs) positive (omega (arith, h, length-drop size xs)),
)

-- The batches of names that one request may ask for.
pub batches-flatten : (xs : List String) → flatten (batches image_recipe_batch xs) ≡ xs
batches-flatten xs = slices-flatten image_recipe_batch ((length xs + 999) / 1000) xs (omega arith)

pub batches-IsBatch :
    (xs : List String) → All (IsBatch image_recipe_batch) (batches image_recipe_batch xs)
batches-IsBatch xs =
    slices-IsBatch image_recipe_batch ((length xs + 999) / 1000) xs (omega arith) (omega arith)
