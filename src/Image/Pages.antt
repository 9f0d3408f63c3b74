-- ===== src/Image/Pages.antt =====
-- The pages of the image index, put together (src/ucloud_sandboxes_sdk/client.py:
-- `SandboxClient.image_index_names`).
use ucloud_sandboxes_sdk.Prelude.{
  pos, negsuc, ℕ, zero, suc, ◌+◌, ◌-◌, ◌≤◌, ◌<◌, ltb, true, false, List, [], ◌∷◌, ◌++◌, drop,
  length, ◌≡◌, refl, sym, ap, subst, ◌∙◌, arith, ltb→lt, inl, inr, Bool-cases, drop-all,
}
use ucloud_sandboxes_sdk.Json.{
  Json, null, bool, int, real, str, arr, obj, Fields, get, to_list, of_list, truthy,
}
use ucloud_sandboxes_sdk.Errors.{Exception, Result, ok}
use ucloud_sandboxes_sdk.Transport.Loop.{returned}
use ucloud_sandboxes_sdk.Archive.Plan.{take}
use ucloud_sandboxes_sdk.Http.Chunks.{take-drop}
use ucloud_sandboxes_sdk.Image.Index.{
  image_index_page_size, Listed, query, after_page, list_from, image_index_names,
}

-- A page of the index: the rows from `at` on, as many as are asked for, and where to go on.
pub record IsPage (rows : List Json) (cursor : ℕ → Json) (limit at : ℕ) (page : Fields)
    : Type 0 where
  pub names : get page "names" ≡ arr (of_list (take limit (drop at rows)))
  pub goes_on : ltb (at + limit) (length rows) ≡ true → get page "next" ≡ cursor (at + limit)
  pub last : ltb (at + limit) (length rows) ≡ false → truthy (get page "next") ≡ false

-- A gateway that serves the rows by pages, with a cursor for each offset.
pub record Serves (server : Fields → Result Exception Fields) (environment state : Json)
    (rows : List Json) (cursor : ℕ → Json) (limit : ℕ) : Type 0 where
  pub page : ℕ → Fields
  pub is_page : (at : ℕ) → at ≤ length rows → IsPage rows cursor limit at (page at)
  pub answers :
      (at : ℕ)
      → at ≤ length rows
      → server (query environment state (cursor at) limit) ≡ ok (page at)
  pub starts : cursor 0 ≡ str ""
  pub some_cursor : (at : ℕ) → 0 < at → truthy (cursor at) ≡ true

to_list-of_list : (xs : List Json) → to_list (of_list xs) ≡ xs
to_list-of_list [] = refl
to_list-of_list (x ∷ xs) = ap (λ t. x ∷ t) (to_list-of_list xs)

drop-drop : (m n : ℕ) (xs : List Json) → drop n (drop m xs) ≡ drop (m + n) xs
drop-drop zero n xs = ap (λ k. drop k xs) (omega arith)
drop-drop (suc m) zero [] = sym (drop-all (suc m + 0) [] (omega arith))
drop-drop (suc m) (suc n) [] = sym (drop-all (suc m + suc n) [] (omega arith))
drop-drop (suc m) n (x ∷ xs) =
    let e : suc (m + n) ≡ suc m + n = omega arith in
    subst (λ k. drop n (drop m xs) ≡ drop k (x ∷ xs)) e (drop-drop m n xs)

image_index_page_size-pos :
    (page_size : Json) (limit : ℕ) → image_index_page_size page_size ≡ ok limit → 0 < limit
unfolding image_index_page_size
image_index_page_size-pos (int (pos n)) limit h = ground arith
image_index_page_size-pos (int (negsuc n)) limit h = cc
image_index_page_size-pos null limit h = cc
image_index_page_size-pos (bool b) limit h = cc
image_index_page_size-pos (real r) limit h = cc
image_index_page_size-pos (str s) limit h = cc
image_index_page_size-pos (arr xs) limit h = cc
image_index_page_size-pos (obj fs) limit h = cc

abbrev pub all_of : List Json → Listed
all_of rows = record { yielded = rows; end = returned tt }

module _ (server : Fields → Result Exception Fields) (environment state page_size : Json)
    (rows : List Json) (cursor : ℕ → Json) (limit : ℕ)
    (sized : image_index_page_size page_size ≡ ok limit)
    (serves : Serves server environment state rows cursor limit) where
  after_page-rows :
      (at : ℕ) (rest : Json → Listed)
      → at ≤ length rows
      → (ltb (at + limit) (length rows) ≡ true
          → rest (cursor (at + limit)) ≡ all_of (drop (at + limit) rows))
      → after_page server environment state page_size (serves.page at) rest ≡ all_of (drop at rows)
  unfolding after_page
  after_page-rows at rest inside goes =
      let p = serves.is_page at inside in
      let parts : take limit (drop at rows) ++ drop (at + limit) rows ≡ drop at rows =
        ap (λ t. take limit (drop at rows) ++ t) (sym (drop-drop at limit rows))
        ∙ take-drop limit (drop at rows) in
      elim (Bool-cases (ltb (at + limit) (length rows))) [
        | inl more ↦
            rw
              (
                p.names,
                to_list-of_list (take limit (drop at rows)),
                p.goes_on more,
                serves.some_cursor (at + limit)
                    (omega (arith, image_index_page_size-pos page_size limit sized)),
                goes more,
                parts,
                after_page,
              )
              refl
        | inr over ↦
            let none_left : drop (at + limit) rows ≡ [] =
              drop-all (at + limit) rows (ground arith) in
            let whole : take limit (drop at rows) ++ [] ≡ drop at rows =
              ap (λ t. take limit (drop at rows) ++ t) (sym none_left) ∙ parts in
            rw
              (p.names, to_list-of_list (take limit (drop at rows)), p.last over, whole, after_page)
              refl
      ]

  list_from-rows :
      (fuel at : ℕ)
      → at ≤ length rows
      → length rows - at < fuel
      → list_from server environment state page_size fuel (cursor at) ≡ all_of (drop at rows)
  unfolding list_from
  list_from-rows zero at inside h = absurd (omega (arith, h))
  list_from-rows (suc fuel) at inside h =
      rw (sized, serves.answers at inside, list_from)
        (after_page-rows at (λ next. list_from server environment state page_size fuel next) inside
          λ more.
            list_from-rows fuel (at + limit) (omega (arith, ltb→lt (at + limit) (length rows) more))
              (omega (
                arith,
                h,
                image_index_page_size-pos page_size limit sized,
                ltb→lt (at + limit) (length rows) more,
              )))

-- From a gateway that serves the rows of its index by pages of the size that is asked for,
-- `image_index_names` yields each row once and in order, and returns, with fuel past the number of
-- rows.
pub image_index_names-rows :
    (server : Fields → Result Exception Fields) (environment state page_size : Json)
    (rows : List Json) (cursor : ℕ → Json) (limit fuel : ℕ)
    → image_index_page_size page_size ≡ ok limit
    → Serves server environment state rows cursor limit
    → length rows < fuel
    → image_index_names server environment state page_size fuel ≡ all_of rows
unfolding image_index_names
image_index_names-rows server environment state page_size rows cursor limit fuel sized serves h =
    ap (λ after. list_from server environment state page_size fuel after) (sym serves.starts)
    ∙ list_from-rows server environment state page_size rows cursor limit sized serves fuel 0
        (omega arith) (omega (arith, h))
