-- ===== src/Status/Records.antt =====
-- Reading sandbox records (src/ucloud_sandboxes_sdk/client.py: `_sandbox_status_records`,
-- `_records`, `_sandbox_record`).
use ucloud_sandboxes_sdk.Prelude.{
  String, Bool, true, false, not, Option, none, some, List, [], ◌∷◌, ◌&&◌, one_of, at_least,
  if◌then◌else◌, ◌≡◌, refl, sym, subst, arith, Option-cases, Bool-cases, inl, inr,
}
use ucloud_sandboxes_sdk.Json.{
  Json, Fields, obj, get, read, list, dict, integer, some_text, equals_text, is_dict,
}
use ucloud_sandboxes_sdk.Errors.{
  plain, Exception, api_error, invalid_answer, Result, ok, err, ◌>>=◌, >>=-eq-ok,
}

abbrev bad {ℓ} : {A : Type ℓ} → String → Fields → Result Exception A
bad what payload = err (api_error (plain (invalid_answer what) (obj payload)))

abbrev pub has_text : Fields → String → Bool
has_text fs k = elim (some_text (get fs k)) [ none ↦ false | some _ ↦ true ]

-- `type(record.get("generation")) is int and record["generation"] >= 1`.
abbrev pub has_generation : Fields → Bool
has_generation fs = elim (integer (get fs "generation")) [ none ↦ false | some g ↦ at_least 1 g ]

-- `requested is not None and sid not in requested`, the other way about.
abbrev pub is_requested : String → Option (List String) → Bool
is_requested sid none = true
is_requested sid (some ids) = one_of sid ids

-- The tests on one record with the id `sid`.
unfoldable pub is_status : Fields → String → Option (List String) → List String → Bool
is_status fs sid requested seen =
    equals_text (read (get fs "spec") "id") sid
    && has_generation fs
    && has_text fs "state"
    && has_text fs "cached_state"
    && is_dict (get fs "node")
    && not (one_of sid seen)
    && is_requested sid requested

unfoldable pub check_status :
    Fields → Option (List String) → List String → Json → Result Exception (String × Fields)
unfolding is_status
check_status payload requested seen item = elim (dict item) [
  | none ↦ bad "compact sandbox status" payload
  | some fs ↦ elim (some_text (get fs "id")) [
    | none ↦ bad "compact sandbox status" payload
    | some sid ↦
        if is_status fs sid requested seen
        then ok (sid, fs)
        else bad "compact sandbox status" payload
  ]
]

-- The loop, after the records with the ids `seen`.
unfoldable pub check_statuses :
    Fields → Option (List String) → List String → List Json → Result Exception (List Fields)
unfolding check_status
check_statuses payload requested seen [] = ok []
check_statuses payload requested seen (item ∷ items) = do
  r ← check_status payload requested seen item
  rs ← check_statuses payload requested (r.0 ∷ seen) items
  ok (r.1 ∷ rs)

-- `_sandbox_status_records`.
unfoldable pub sandbox_status_records :
    Fields → Option (List String) → Result Exception (List Fields)
unfolding check_statuses
sandbox_status_records payload requested =
    if equals_text (get payload "view") "status"
    then elim (list (get payload "sandboxes")) [
      | none ↦ bad "compact sandbox statuses" payload
      | some items ↦ check_statuses payload requested [] items
    ]
    else bad "compact sandbox status" payload

abbrev only_dicts : List Json → List Fields
only_dicts [] = []
only_dicts (v ∷ vs) =
    let rest = only_dicts vs in elim (dict v) [ none ↦ rest | some fs ↦ fs ∷ rest ]

-- `_records`.
unfoldable pub records : Fields → String → List Fields
records payload k = elim (list (get payload k)) [ none ↦ [] | some items ↦ only_dicts items ]

-- `_sandbox_record`.
unfoldable pub sandbox_record : Fields → Result Exception (String × Fields)
sandbox_record response = elim (dict (get response "sandbox")) [
  | none ↦ bad "sandbox payload" response
  | some fs ↦ elim (some_text (read (get fs "spec") "id")) [
    | none ↦ bad "spec.id" response
    | some sandbox_id ↦ ok (sandbox_id, fs)
  ]
]

-- What a record is checked for.
pub record IsStatus (requested : Option (List String)) (fs : Fields) : Type 0 where
  pub sid : String
  pub has_id : some_text (get fs "id") ≡ some sid
  pub of_spec : equals_text (read (get fs "spec") "id") sid ≡ true
  pub generation : has_generation fs ≡ true
  pub state : has_text fs "state" ≡ true
  pub cached_state : has_text fs "cached_state" ≡ true
  pub node : is_dict (get fs "node") ≡ true
  pub asked_for : is_requested sid requested ≡ true

-- The records are of sandboxes that were asked for, and none that was seen stands in them.
abbrev pub AllStatuses : Option (List String) → List String → List Fields → Type 0
AllStatuses requested seen [] = Unit
AllStatuses requested seen (fs ∷ rest) =
    (i : IsStatus requested fs) × (one_of i.sid seen ≡ false)
    × AllStatuses requested (i.sid ∷ seen) rest

is_status-IsStatus :
    (fs : Fields) (sid : String) (requested : Option (List String)) (seen : List String)
    → some_text (get fs "id") ≡ some sid
    → is_status fs sid requested seen ≡ true
    → (i : IsStatus requested fs) × (i.sid ≡ sid) × (one_of sid seen ≡ false)
unfolding is_status
is_status-IsStatus fs sid requested seen id h = (
  record {
    sid = sid;
    has_id = id;
    of_spec = ground arith;
    generation = ground arith;
    state = ground arith;
    cached_state = ground arith;
    node = ground arith;
    asked_for = ground arith;
  },
  refl,
  ground arith,
)

check_status-ok :
    (payload : Fields) (requested : Option (List String)) (seen : List String) (item : Json)
    (r : String × Fields)
    → check_status payload requested seen item ≡ ok r
    → (some_text (get r.1 "id") ≡ some r.0) × (is_status r.1 r.0 requested seen ≡ true)
unfolding check_status
check_status-ok payload requested seen item r h = elim (Option-cases (dict item)) [
  | inl none_there ↦ absurd (ground arith)
  | inr (fs, is_obj) ↦ elim (Option-cases (some_text (get fs "id"))) [
    | inl none_there ↦ absurd (ground arith)
    | inr (sid, id) ↦ elim (Bool-cases (is_status fs sid requested seen)) [
      | inr bad_one ↦ absurd (ground arith)
      | inl fine ↦
          let e : (sid, fs) ≡ r = ground arith in
          subst
            (λ r. (some_text (get r.1 "id") ≡ some r.0) × (is_status r.1 r.0 requested seen ≡ true))
            e (id, fine)
    ]
  ]
]

check_statuses-AllStatuses :
    (payload : Fields) (requested : Option (List String)) (seen : List String) (items : List Json)
    (rs : List Fields)
    → check_statuses payload requested seen items ≡ ok rs
    → AllStatuses requested seen rs
unfolding check_statuses
check_statuses-AllStatuses payload requested seen [] rs h =
    let e : [] ≡ rs = ground arith in subst (AllStatuses requested seen) e tt
check_statuses-AllStatuses payload requested seen (item ∷ items) rs h =
    let (r, one, more) = >>=-eq-ok (check_status payload requested seen item) _ h in
    let (others, rest, same) =
      >>=-eq-ok (check_statuses payload requested (r.0 ∷ seen) items) _ more in
    let (id, fine) = check_status-ok payload requested seen item r one in
    let (i, is, fresh) = is_status-IsStatus r.1 r.0 requested seen id fine in
    let e : (r.1 ∷ others) ≡ rs = ground arith in
    let tail = check_statuses-AllStatuses payload requested (r.0 ∷ seen) items others rest in
    subst (AllStatuses requested seen) e (
      i,
      subst (λ s. one_of s seen ≡ false) (sym is) fresh,
      subst (λ s. AllStatuses requested (s ∷ seen) others) (sym is) tail,
    )

-- The records that are accepted have an id that is their spec's, a positive generation, both
-- states and a node; each is of a sandbox that was asked for, and no id stands twice.
pub sandbox_status_records-AllStatuses :
    (payload : Fields) (requested : Option (List String)) (rs : List Fields)
    → sandbox_status_records payload requested ≡ ok rs
    → AllStatuses requested [] rs
unfolding sandbox_status_records
sandbox_status_records-AllStatuses payload requested rs h =
    elim (Option-cases (list (get payload "sandboxes"))) [
      | inl none_there ↦ absurd (ground arith)
      | inr (items, listed) ↦
          check_statuses-AllStatuses payload requested [] items rs (ground arith)
    ]
