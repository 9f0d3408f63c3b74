-- ===== src/Image/Index.antt =====
-- `SandboxClient.image_index_names` (src/ucloud_sandboxes_sdk/client.py). The gateway is a function
-- from the query of a request, before `urlencode`.
use ucloud_sandboxes_sdk.Prelude.{
  ℕ, zero, suc, pos, leb, String, ◌==◌, Bool, true, false, List, [], ◌∷◌, ◌++◌, ◌&&◌, map, chars,
  if◌then◌else◌,
}
use ucloud_sandboxes_sdk.Json.{
  Json, null, int, str, arr, obj, Fields, end, field, get, to_list, truthy,
}
use ucloud_sandboxes_sdk.Errors.{
  Exception, value_error, type_error, invalid_argument, invalid_answer, Result, ok, err,
}
use ucloud_sandboxes_sdk.Transport.Loop.{Ended, returned, raised, out_of_fuel}

-- `value in (None, "")`.
abbrev pub is_unset : Json → Bool
is_unset null = true
is_unset (str s) = s == ""
is_unset _ = false

-- The query of `_image_index_path`.
abbrev pub set_only : Fields → Fields
set_only end = end
set_only (field k v fs) = let rest = set_only fs in if is_unset v then rest else field k v rest

-- `_image_index_page_size`.
unfoldable pub image_index_page_size : Json → Result Exception ℕ
image_index_page_size (int (pos n)) =
    if leb 1 n && leb n 5000 then ok n else err (value_error (invalid_argument "page_size"))
image_index_page_size _ = err (value_error (invalid_argument "page_size"))

abbrev keys_of : Fields → List String
keys_of end = []
keys_of (field k _ fs) = k ∷ keys_of fs

-- `value or []`, iterated over.
abbrev pub iterated : Json → Result Exception (List Json)
iterated (arr xs) = ok (to_list xs)
iterated (str s) = ok (map str (chars s))
iterated (obj fs) = ok (map str (keys_of fs))
iterated v = if truthy v then err (type_error (invalid_answer "names")) else ok []

-- What is yielded, and the end.
pub record Listed : Type 0 where
  pub yielded : List Json
  pub end : Ended (Unit {0})

abbrev pub listed : Ended (Unit {0}) → Listed
listed e = record { yielded = []; end = e }

abbrev pub yields_page : List Json → Listed → Listed
yields_page names l = record l { yielded = names ++ l.yielded }

-- The query of a request for a page.
abbrev pub query : Json → Json → Json → ℕ → Fields
query environment state after limit = set_only (
    field "environment" environment
      (field "state" state (field "after" after (field "limit" (int (pos limit)) end))))

module _ (server : Fields → Result Exception Fields) (environment state page_size : Json) where
  -- After a page: `rest` goes on from the page's `next`.
  unfoldable pub after_page : Fields → (Json → Listed) → Listed
  after_page page rest = elim (iterated (get page "names")) [
    | err e ↦ listed (raised e)
    | ok names ↦
        yields_page names
          (if truthy (get page "next") then rest (get page "next") else listed (returned tt))
  ]

  -- The loop, `after` a name.
  unfoldable pub list_from : ℕ → Json → Listed
  unfolding image_index_page_size after_page
  list_from zero after = listed out_of_fuel
  list_from (suc fuel) after = elim (image_index_page_size page_size) [
    | err e ↦ listed (raised e)
    | ok limit ↦ elim (server (query environment state after limit)) [
      | err e ↦ listed (raised e)
      | ok page ↦ after_page page (λ next. list_from fuel next)
    ]
  ]

  unfoldable pub image_index_names : ℕ → Listed
  unfolding list_from
  image_index_names fuel = list_from fuel (str "")
