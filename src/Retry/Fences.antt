-- ===== src/Retry/Fences.antt =====
-- What a repeated request was answered (src/ucloud_sandboxes_sdk/client.py,
-- `_should_retry_ucloud_unavailable`), against a list of the refusals that are sent before dispatch.
use ucloud_sandboxes_sdk.Prelude.{
  ℕ, String, true, false, Option, List, [], ◌∷◌, ◌≡◌, refl, one_of, arith, eq_iff, three_true,
  either_true, inl, inr, ◌⊎◌, ◌||◌,
}
use ucloud_sandboxes_sdk.Json.{Json, str, in_texts, equals_text}
use ucloud_sandboxes_sdk.Retry.Paths.{
  is_method, is_read_method, is_path, path_begins, is_one_sandbox, group_path,
}
use ucloud_sandboxes_sdk.Retry.Policy.{
  error_code, fence_codes, image_codes, builder_codes, image_resolution_fence, delete_drain,
  group_delete, builder_admission_fence, pre_dispatch_fence, says_retryable, retry_status,
  stable_create, should_retry,
}

-- The codes of the refusals that the gateway sends before it dispatches anything.
abbrev refusal_codes : List String
refusal_codes =
    "http_request_capacity_exhausted" ∷ "snapshot_publication_pending" ∷ "node_active_exec_deferred"
    ∷ "node_restore_busy" ∷ "node_startup_busy" ∷ "gateway_startup_busy"
    ∷ "wake_destination_unavailable" ∷ "migration_destination_unavailable" ∷ []

-- The refusals that name no work begun, with the request that each belongs to.
pub data Refusal (method path : String) (code : Json) : Type 0 where
  before_handler :
      (c : String) → code ≡ str c → one_of c refusal_codes ≡ true → Refusal method path code
  image_resolution :
      (c : String)
      → code ≡ str c
      → is_method method "POST" ≡ true
      → (is_path path "/v1/capacity/prepare" ≡ true) ⊎ (is_path path "/v1/images/pull" ≡ true)
      → one_of c
          ("image_inventory_incomplete" ∷ "managed_registry_digest_protection_unavailable" ∷ [])
        ≡ true
      → Refusal method path code
  builder_admission :
      (c : String)
      → code ≡ str c
      → is_method method "POST" ≡ true
      → is_path path "/v1/images/build" ≡ true
      → one_of c ("builder_not_ready" ∷ "builder_busy" ∷ "node_admission_closed" ∷ []) ≡ true
      → Refusal method path code
  draining :
      code ≡ str "memory_publication_draining"
      → is_method method "DELETE" ≡ true
      → is_one_sandbox path ≡ true
      → Refusal method path code

-- The deletion of a group: a repeat deletes the members that are left, so nothing is asked of the code
-- of the answer.
pub record IsGroupDeletion (method path : String) : Type 0 where
  pub deletes : is_method method "DELETE" ≡ true
  pub of_group : path_begins path "/v1/sandboxes:batch/" ≡ true

-- Why an answer lets a request be repeated.
abbrev pub Reason : String → String → Json → Type 0
Reason method path code = Refusal method path code ⊎ IsGroupDeletion method path

one_of-cons : (c t : String) (ts : List String) → one_of c ts ≡ true → one_of c (t ∷ ts) ≡ true
one_of-cons c t ts h = ground arith

in_texts-one_of : (s : String) (ts : List String) → in_texts (str s) ts ≡ true → one_of s ts ≡ true
in_texts-one_of s [] h = h
in_texts-one_of s (t ∷ ts) h = ground (arith, in_texts-one_of s ts)

in_texts-str :
    (v : Json) (ts : List String)
    → in_texts v ts ≡ true
    → (c : String) × (v ≡ str c) × (one_of c ts ≡ true)
in_texts-str v [] h = cc
in_texts-str (str s) (t ∷ ts) h = (s, refl, in_texts-one_of s (t ∷ ts) h)
in_texts-str v (t ∷ ts) h = let (c, e, o) = in_texts-str v ts h in (c, e, one_of-cons c t ts o)

equals_text-str : (v : Json) (t : String) → equals_text v t ≡ true → v ≡ str t
equals_text-str (str s) t h = ground (arith, eq_iff s t)
equals_text-str v t h = cc

module _ (method path : String) (code : Json) where
  image_resolution_fence-Refusal :
      image_resolution_fence code method path ≡ true → Refusal method path code
  unfolding image_resolution_fence
  image_resolution_fence-Refusal h =
      let (post, paths, codes) = three_true _ _ _ h in
      let (c, e, o) = in_texts-str code image_codes codes in
      image_resolution c e post (either_true _ _ paths) o

  builder_admission_fence-Refusal :
      builder_admission_fence code method path ≡ true → Refusal method path code
  unfolding builder_admission_fence
  builder_admission_fence-Refusal h =
      let (post, build, codes) = three_true _ _ _ h in
      let (c, e, o) = in_texts-str code builder_codes codes in builder_admission c e post build o

  delete_drain-Refusal : delete_drain code method path ≡ true → Refusal method path code
  unfolding delete_drain
  delete_drain-Refusal h =
      draining (equals_text-str code _ (ground arith)) (ground arith) (ground arith)

  group_delete-IsGroupDeletion : group_delete method path ≡ true → IsGroupDeletion method path
  unfolding group_delete
  group_delete-IsGroupDeletion h = record { deletes = ground arith; of_group = ground arith }

-- A status that asks to come back, and `"retryable": true`.
pub record AsksRetry (status : ℕ) (body : Json) : Type 0 where
  pub status_listed : retry_status status ≡ true
  pub says_so : says_retryable body ≡ true

fences-Reason :
    (body : Json) (method path : String)
    → (in_texts (error_code body) fence_codes
        || image_resolution_fence (error_code body) method path
        || builder_admission_fence (error_code body) method path
        || delete_drain (error_code body) method path
        || group_delete method path)
      ≡ true
    → Reason method path (error_code body)
fences-Reason body method path h = elim (either_true _ _ h) [
  | inr group ↦ inr (group_delete-IsGroupDeletion method path (error_code body) group)
  | inl h ↦ elim (either_true _ _ h) [
    | inr drain ↦ inl (delete_drain-Refusal method path (error_code body) drain)
    | inl h ↦ elim (either_true _ _ h) [
      | inr builder ↦ inl (builder_admission_fence-Refusal method path (error_code body) builder)
      | inl h ↦ elim (either_true _ _ h) [
        | inr image ↦ inl (image_resolution_fence-Refusal method path (error_code body) image)
        | inl known ↦
            let (c, e, o) = in_texts-str (error_code body) fence_codes known in
            inl (before_handler c e o)
      ]
    ]
  ]
]

pre_dispatch_fence-Reason :
    (status : ℕ) (body : Json) (method path : String)
    → pre_dispatch_fence status body method path ≡ true
    → AsksRetry status body × Reason method path (error_code body)
unfolding pre_dispatch_fence
pre_dispatch_fence-Reason status body method path h =
    let (listed, says, fences) = three_true _ _ _ h in
    (record { status_listed = listed; says_so = says }, fences-Reason body method path fences)

-- A request that is neither a read nor the create of one sandbox by its id.
pub record IsUnsafe (method path : String) : Type 0 where
  pub no_read : is_read_method method ≡ false
  pub no_create : stable_create method path ≡ false

should_retry-fence :
    (status : ℕ) (body : Json) (attempt : ℕ) (method path : String) (max_attempts : Option ℕ)
    → IsUnsafe method path
    → should_retry status body attempt method path max_attempts ≡ true
    → pre_dispatch_fence status body method path ≡ true
unfolding should_retry
should_retry-fence status body attempt method path max_attempts u h = ground arith

-- A request that is neither a read nor a create of one sandbox is repeated only where the answer has
-- a status that asks to come back and says that it is retryable, and where its code is one of the
-- refusals that belong to the request's method and path, or the request deletes a group.
pub retried-Refusal :
    (status : ℕ) (body : Json) (attempt : ℕ) (method path : String) (max_attempts : Option ℕ)
    → IsUnsafe method path
    → should_retry status body attempt method path max_attempts ≡ true
    → AsksRetry status body × (Refusal method path (error_code body) ⊎ IsGroupDeletion method path)
retried-Refusal status body attempt method path max_attempts u h =
    pre_dispatch_fence-Reason status body method path
      (should_retry-fence status body attempt method path max_attempts u h)

-- The transport never repeats a group create, whatever is answered.
pub group_create_once :
    (status : ℕ) (body : Json) (attempt : ℕ) (method : String) (max_attempts : Option ℕ)
    → is_method method "POST" ≡ true
    → should_retry status body attempt method group_path max_attempts ≡ false
unfolding should_retry is_path
group_create_once status body attempt method max_attempts h = ground arith
