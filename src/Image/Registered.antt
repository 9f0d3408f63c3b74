-- ===== src/Image/Registered.antt =====
-- The recipes are posted after their contexts are held (src/ucloud_sandboxes_sdk/client.py:
-- `register_image_recipes`).
use ucloud_sandboxes_sdk.Prelude.{
  String, List, [], ◌∷◌, ◌++◌, All, map, length, eqb, is_empty, ◌≡◌, refl, sym, ap, subst, ◌∙◌, inl,
  inr, Bool-cases, arith,
}
use ucloud_sandboxes_sdk.Json.{Json, Fields, get}
use ucloud_sandboxes_sdk.Errors.{Exception, Result, ok, Result-cases}
use ucloud_sandboxes_sdk.Http.Chunks.{append_assoc}
use ucloud_sandboxes_sdk.Image.Names.{distinct, image_recipe_batch, batches}
use ucloud_sandboxes_sdk.Image.Index.{iterated}
use ucloud_sandboxes_sdk.Image.Recipes.{
  Context, ImageRecipe, GatewayCall, post_recipes, Sends, gives, then_send, image_recipes,
  recipe_registration, make_call, upload_contexts, extend_then, post_rows, post_batches,
  register_image_recipes,
}
use ucloud_sandboxes_sdk.Image.Held.{then_send-rule, IsHeld, upload_contexts-AllHeld}

All-append :
    (P : GatewayCall → Type 0) (xs ys : List GatewayCall) → All P xs → All P ys → All P (xs ++ ys)
All-append P [] ys all more = more
All-append P (x ∷ xs) ys (first, rest) more = (first, All-append P xs ys rest more)

module _ (server : List GatewayCall → GatewayCall → Result Exception Fields)
    (archive_of : String → Result Exception Context) where
  -- Only recipes are posted behind the calls `before`.
  abbrev pub IsPost : GatewayCall → Type 0
  IsPost (post_recipes batch) = Unit
  IsPost _ = ⊥

  abbrev pub Posts : List GatewayCall → List GatewayCall → Type 0
  Posts before after = (posts : List GatewayCall) × (after ≡ posts ++ before) × All IsPost posts

  Posts-rule :
      {A B : Type 0} (m : Sends A) (f : A → Sends B) (calls : List GatewayCall)
      → Posts calls (m calls).1
      → ((a : A) → Posts (m calls).1 (f a (m calls).1).1)
      → Posts calls (then_send m f calls).1
  Posts-rule m f calls first second = elim (Result-cases (m calls).0) [
    | inl (e, failed) ↦ rw (failed, then_send) first
    | inr (a, got) ↦
        let (p, all_p, is_p) = first in
        let (q, all_q, is_q) = second a in
        rw (got, then_send)
          (
            q ++ p,
            all_q ∙ ap (λ t. q ++ t) all_p ∙ sym (append_assoc q p calls),
            All-append IsPost q p is_q is_p,
          )
  ]

  post_batches-Posts :
      (batches : List (List Json)) (calls : List GatewayCall)
      → Posts calls (post_batches server archive_of batches calls).1
  unfolding post_batches
  post_batches-Posts [] calls = ([], refl, tt)
  post_batches-Posts (batch ∷ rest) calls =
      let more = post_batches server archive_of rest in
      let sent = post_recipes batch ∷ calls in
      Posts-rule (make_call server (post_recipes batch)) (extend_then server archive_of more) calls
        (post_recipes batch ∷ [], refl, (tt, tt))
        λ result.
          Posts-rule (gives (iterated (get result "recipes")))
            (λ some_rows. then_send more (λ rows. gives (ok (some_rows ++ rows)))) sent
            ([], refl, tt)
            λ some_rows.
              Posts-rule more (λ rows. gives (ok (some_rows ++ rows))) sent
                (post_batches-Posts rest sent) (λ rows. ([], refl, tt))

image_recipes-same :
    (recipes given : List ImageRecipe) → image_recipes recipes ≡ ok given → given ≡ recipes
unfolding image_recipes
image_recipes-same recipes given h = elim (Bool-cases (is_empty recipes)) [
  | inl none_there ↦ absurd (ground arith)
  | inr some_there ↦
      elim (Bool-cases (eqb (length (distinct (map (λ r. r.name) recipes))) (length recipes))) [
        | inl unique ↦ ground arith
        | inr twice ↦ absurd (ground arith)
      ]
]

-- When `register_image_recipes` returns, there is a point in its calls where the gateway holds the
-- context of every recipe, by a matching answer to a look-up or by a successful upload, and behind
-- which the calls post recipes only.
pub register_image_recipes-AllHeld :
    (server : List GatewayCall → GatewayCall → Result Exception Fields)
    (archive_of : String → Result Exception Context) (recipes : List ImageRecipe)
    (before : List GatewayCall) (out : Fields)
    → (register_image_recipes server archive_of recipes before).0 ≡ ok out
    → (held : List GatewayCall) × All (IsHeld server archive_of held) recipes
      × Posts server archive_of held (register_image_recipes server archive_of recipes before).1
unfolding register_image_recipes post_rows
register_image_recipes-AllHeld server archive_of recipes before =
    let Goal : Result Exception Fields × List GatewayCall → Type 0 = λ r.
      (out : Fields)
      → r.0 ≡ ok out
      → (held : List GatewayCall) × All (IsHeld server archive_of held) recipes
        × Posts server archive_of held r.1 in
    then_send-rule (gives (image_recipes recipes))
      (λ given. then_send (upload_contexts server archive_of given) (post_rows server archive_of))
      before Goal (λ e after out h. cc)
      λ given fine.
        let same : given ≡ recipes = image_recipes-same recipes given fine in
        then_send-rule (upload_contexts server archive_of given) (post_rows server archive_of)
          before Goal (λ e after out h. cc)
          λ rows got out h.
            let (all, f) = upload_contexts-AllHeld server archive_of given before rows got in
            (
              (upload_contexts server archive_of given before).1,
              subst
                  (All
                    (IsHeld server archive_of (upload_contexts server archive_of given before).1))
                  same all,
              Posts-rule server archive_of
                  (post_batches server archive_of (batches image_recipe_batch rows))
                  (λ registered. gives (recipe_registration registered)) _
                  (post_batches-Posts server archive_of (batches image_recipe_batch rows) _)
                  (λ registered. ([], refl, tt)),
            )
