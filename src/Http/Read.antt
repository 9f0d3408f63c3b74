-- ===== src/Http/Read.antt =====
-- Reading the body of a response up to a limit (src/ucloud_sandboxes_sdk/_http.py:
-- `_check_content_length`, `read_sync_response`, `read_async_response`). A body is its bytes.
use ucloud_sandboxes_sdk.Prelude.{
  ℕ, zero, suc, ◌+◌, ◌-◌, min, String, Bool, Option, none, some, List, [], ◌∷◌, ◌++◌, ltb, codes,
  lower, same_codes, drop, length, is_empty, pos_part, if◌then◌else◌,
}
use ucloud_sandboxes_sdk.Errors.{Result, ok, err, ◌>>◌}
use ucloud_sandboxes_sdk.Runtime.{Runtime}
use ucloud_sandboxes_sdk.Transport.Decode.{Headers}
use ucloud_sandboxes_sdk.Archive.Plan.{take}

-- `ResponseTooLargeError`, or fuel that the model's loop lacks.
pub data ReadError : Type 0 where
  response_too_large : ℕ → ReadError
  no_fuel : ReadError

-- `next(value for key, value in ... if key.lower() == "content-length")`.
abbrev pub content_length : Headers → Option String
content_length [] = none
content_length ((key, value) ∷ headers) =
    if same_codes (lower (codes key)) (codes "content-length")
    then some value
    else content_length headers

abbrev pub within_limit : ℕ → ℕ → Result ReadError (Unit {0})
within_limit size limit = if ltb limit size then err (response_too_large limit) else ok tt

-- A negative length passes too.
unfoldable pub check_content_length : Runtime → Headers → ℕ → Result ReadError (Unit {0})
check_content_length py headers limit = elim (content_length headers) [
  | none ↦ ok tt
  | some raw ↦ elim (py.int_of raw) [ none ↦ ok tt | some n ↦ within_limit (pos_part n) limit ]
]

-- `read(limit + 1)`, or `read()` where it takes no size.
abbrev pub sized_read : Bool → ℕ → List ℕ → List ℕ
sized_read sized limit body = if sized then take (limit + 1) body else body

unfoldable pub read_sync_response :
    Runtime → Headers → Bool → List ℕ → ℕ → Result ReadError (List ℕ)
read_sync_response py headers sized body limit = do
  check_content_length py headers limit
  within_limit (length (sized_read sized limit body)) limit
  ok (sized_read sized limit body)

-- How an asynchronous response is read: in chunks, where `available k` bytes more than one have
-- arrived at the read number `k`, or whole.
pub data Reader : Type 0 where
  chunked : (available : ℕ → ℕ) → Reader
  whole : Reader

-- `await read(min(64 * 1024, limit + 1 - total))`.
abbrev pub chunk_size : ℕ → ℕ → ℕ → ℕ
chunk_size limit total available = min (min 65536 ((limit + 1) - total)) (suc available)

-- The loop over the chunks, by fuel: the bytes that are left, the bytes that were read, and their
-- number.
unfoldable pub read_chunks : (ℕ → ℕ) → ℕ → ℕ → ℕ → List ℕ → List ℕ → ℕ → Result ReadError (List ℕ)
read_chunks available limit zero number left got total = err no_fuel
read_chunks available limit (suc fuel) number left got total =
    let size = chunk_size limit total (available number) in
    let chunk = take size left in
    let rest =
      read_chunks available limit fuel (suc number) (drop size left) (got ++ chunk)
        (total + length chunk) in
    if is_empty chunk
    then ok got
    else if ltb limit (total + length chunk)
    then err (response_too_large limit)
    else rest

unfoldable pub read_async_response :
    Runtime → Headers → Reader → List ℕ → ℕ → ℕ → Result ReadError (List ℕ)
read_async_response py headers (chunked available) body limit fuel = do
  check_content_length py headers limit
  read_chunks available limit fuel 0 body [] 0
read_async_response py headers whole body limit fuel = do
  check_content_length py headers limit
  within_limit (length body) limit
  ok body
