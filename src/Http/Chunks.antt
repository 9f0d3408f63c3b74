-- ===== src/Http/Chunks.antt =====
-- Reading in chunks is reading at once (src/ucloud_sandboxes_sdk/_http.py, `read_async_response`).
use ucloud_sandboxes_sdk.Prelude.{
  ℕ, zero, suc, ◌+◌, ◌-◌, ◌≤◌, ◌<◌, min, Bool, true, false, List, [], ◌∷◌, ◌++◌, ltb, drop, length,
  length-append, is_empty, ◌≡◌, refl, sym, ap, ◌∙◌, arith, inl, inr, Bool-cases, ltb→lt,
  if◌then◌else◌,
}
use ucloud_sandboxes_sdk.Errors.{Result, ok, err, ◌>>◌}
use ucloud_sandboxes_sdk.Runtime.{Runtime}
use ucloud_sandboxes_sdk.Transport.Decode.{Headers}
use ucloud_sandboxes_sdk.Archive.Plan.{take}
use ucloud_sandboxes_sdk.Http.Read.{
  ReadError, response_too_large, within_limit, check_content_length, sized_read, read_sync_response,
  chunked, chunk_size, read_chunks, read_async_response,
}

pub take-drop : {A : Type 0} (n : ℕ) (xs : List A) → take n xs ++ drop n xs ≡ xs
take-drop zero xs = refl
take-drop (suc n) [] = refl
take-drop (suc n) (x ∷ xs) = ap (λ t. x ∷ t) (take-drop n xs)

pub length-take : {A : Type 0} (n : ℕ) (xs : List A) → length (take n xs) ≡ min n (length xs)
length-take zero xs = omega arith
length-take (suc n) [] = omega arith
length-take (suc n) (x ∷ xs) = omega (arith, length-take n xs)

pub length-drop : {A : Type 0} (n : ℕ) (xs : List A) → length (drop n xs) ≡ length xs - n
length-drop zero xs = omega arith
length-drop (suc n) [] = omega arith
length-drop (suc n) (x ∷ xs) = omega (arith, length-drop n xs)

pub append_assoc : {A : Type 0} (xs ys zs : List A) → (xs ++ ys) ++ zs ≡ xs ++ (ys ++ zs)
append_assoc [] ys zs = refl
append_assoc (x ∷ xs) ys zs = ap (λ t. x ∷ t) (append_assoc xs ys zs)

append-nil : {A : Type 0} (xs : List A) → xs ++ [] ≡ xs
append-nil [] = refl
append-nil (x ∷ xs) = ap (λ t. x ∷ t) (append-nil xs)

take-nil : {A : Type 0} (n : ℕ) → take {A = A} n [] ≡ []
take-nil zero = refl
take-nil (suc n) = refl

is_empty-take : (n c : ℕ) (xs : List ℕ) → 0 < n → is_empty (take n (c ∷ xs)) ≡ false
is_empty-take zero c xs h = absurd (omega arith)
is_empty-take (suc n) c xs h = refl

lt→ltb : (a b : ℕ) → a < b → ltb a b ≡ true
lt→ltb a b h = ground arith

fits-not : (a b : ℕ) → b ≤ a → ltb a b ≡ false
fits-not a b h = ground arith

not-over : (a b : ℕ) → ltb a b ≡ false → b ≤ a
not-over a b h = ground arith

-- The body, or the error where it is past the limit.
abbrev pub limited : List ℕ → ℕ → Result ReadError (List ℕ)
limited body limit = if ltb limit (length body) then err (response_too_large limit) else ok body

-- The loop from some point on; `total` is the length of what was read.
abbrev IsLimited : (ℕ → ℕ) → ℕ → ℕ → ℕ → List ℕ → List ℕ → ℕ → Type 0
IsLimited available limit fuel number left got total =
    read_chunks available limit fuel number left got total ≡ limited (got ++ left) limit

chunk_step :
    (available : ℕ → ℕ) (limit fuel number : ℕ) (left got chunk rest : List ℕ) (total : ℕ)
    → chunk ≡ take (chunk_size limit total (available number)) left
    → rest ≡ drop (chunk_size limit total (available number)) left
    → total ≡ length got
    → is_empty chunk ≡ false
    → chunk ++ rest ≡ left
    → ((total + length chunk ≤ limit)
        → IsLimited available limit fuel (suc number) rest (got ++ chunk) (total + length chunk))
    → IsLimited available limit (suc fuel) number left got total
unfolding read_chunks
chunk_step available limit fuel number left got chunk rest total cut cut_rest at some_bytes all ih =
    elim (Bool-cases (ltb limit (total + length chunk))) [
      | inl over ↦
          let long : ltb limit (length (got ++ left)) ≡ true = lt→ltb limit _ (
            omega (
              arith,
              ltb→lt limit _ over,
              at,
              length-append got left,
              length-append chunk rest,
              ap length all,
            )) in
          rw (sym cut, some_bytes, over, long) refl
      | inr fits ↦
          rw (sym cut, some_bytes, fits, sym cut_rest)
            (ih (omega (arith, not-over limit _ fits))
              ∙ ap (λ t. limited t limit) (append_assoc got chunk rest ∙ ap (λ t. got ++ t) all))
    ]

read_chunks-IsLimited :
    (available : ℕ → ℕ) (limit fuel number : ℕ) (left got : List ℕ) (total : ℕ)
    → total ≡ length got
    → total ≤ limit
    → (limit + 1) - total < fuel
    → IsLimited available limit fuel number left got total
unfolding read_chunks
read_chunks-IsLimited available limit zero number left got total at h k = absurd (omega arith)
read_chunks-IsLimited available limit (suc fuel) number [] got total at h k =
    rw
      (
        take-nil (chunk_size limit total (available number)),
        append-nil got,
        fits-not limit (length got) (omega arith),
      )
      refl
read_chunks-IsLimited available limit (suc fuel) number (c ∷ left) got total at h k =
    let size = chunk_size limit total (available number) in
    chunk_step available limit fuel number (c ∷ left) got (take size (c ∷ left))
      (drop size (c ∷ left)) total refl refl at (is_empty-take size c left (omega arith))
      (take-drop size (c ∷ left))
      λ fits.
        read_chunks-IsLimited available limit fuel (suc number) (drop size (c ∷ left))
          (got ++ take size (c ∷ left)) (total + length (take size (c ∷ left)))
          (omega (arith, at, length-append got (take size (c ∷ left)))) fits
          (omega (arith, length-take size (c ∷ left)))

pub take-all : {A : Type 0} (n : ℕ) (xs : List A) → length xs ≤ n → take n xs ≡ xs
take-all n [] h = take-nil n
take-all zero (x ∷ xs) h = absurd (omega arith)
take-all (suc n) (x ∷ xs) h = ap (λ t. x ∷ t) (take-all n xs (omega arith))

within-limited :
    (body : List ℕ) (limit : ℕ) → (within_limit (length body) limit >> ok body) ≡ limited body limit
within-limited body limit = elim (Bool-cases (ltb limit (length body))) [
  | inl over ↦ rw over refl
  | inr fits ↦ rw fits refl
]

sized-limited :
    (sized : Bool) (body : List ℕ) (limit : ℕ)
    → limited (sized_read sized limit body) limit ≡ limited body limit
sized-limited false body limit = refl
sized-limited true body limit = elim (Bool-cases (ltb limit (length body))) [
  | inl over ↦
      let long : ltb limit (length (take (limit + 1) body)) ≡ true =
        lt→ltb limit _ (omega (arith, ltb→lt limit _ over, length-take (limit + 1) body)) in
      rw (over, long) refl
  | inr fits ↦ rw (take-all (limit + 1) body (omega (arith, not-over limit _ fits))) refl
]

sync-limited :
    (py : Runtime) (headers : Headers) (sized : Bool) (body : List ℕ) (limit : ℕ)
    → read_sync_response py headers sized body limit
      ≡ (check_content_length py headers limit >> limited body limit)
unfolding read_sync_response
sync-limited py headers sized body limit =
    ap (λ t. check_content_length py headers limit >> t)
      (within-limited (sized_read sized limit body) limit ∙ sized-limited sized body limit)

-- An asynchronous read in chunks, whatever has arrived at each read, is a synchronous read of the same
-- body; a fuel of two reads more than the limit is enough.
pub read_async-read_sync :
    (py : Runtime) (headers : Headers) (available : ℕ → ℕ) (sized : Bool) (body : List ℕ)
    (limit fuel : ℕ)
    → limit + 1 < fuel
    → read_async_response py headers (chunked available) body limit fuel
      ≡ read_sync_response py headers sized body limit
unfolding read_async_response
read_async-read_sync py headers available sized body limit fuel h =
    ap (λ t. check_content_length py headers limit >> t)
      (read_chunks-IsLimited available limit fuel 0 body [] 0 refl (omega arith) (omega arith))
    ∙ sym (sync-limited py headers sized body limit)
