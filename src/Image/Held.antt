-- ===== src/Image/Held.antt =====
-- A recipe or a build is sent after its context is held (src/ucloud_sandboxes_sdk/client.py:
-- `register_image_recipes`, `submit_image_build`).
use ucloud_sandboxes_sdk.Prelude.{
  String, true, List, [], ◌∷◌, ◌++◌, All, ◌≡◌, refl, sym, ap, subst, ◌∙◌, inl, inr, Bool-cases,
  arith,
}
use ucloud_sandboxes_sdk.Json.{Json, null, obj, Fields}
use ucloud_sandboxes_sdk.Errors.{
  Exception, api_error, value_error, type_error, timeout_error, assertion_error, unicode_error,
  key_error, attribute_error, certificate_error, transport_error, history_lost, Result, ok, err,
  Result-cases,
}
use ucloud_sandboxes_sdk.Http.Chunks.{append_assoc}
use ucloud_sandboxes_sdk.Image.Recipes.{
  Context, ImageRecipe, GatewayCall, get_context, put_context, Sends, gives, then_send,
  reference_matches, existing_of, make_call, look_up, put_unless_held, upload_build_context,
  context_of, upload_contexts, and_row, upload_then,
}

-- What holds of every failure, and of the second where the first returns, holds of both in a row.
pub then_send-rule :
    {A B : Type 0} (m : Sends A) (f : A → Sends B) (calls : List GatewayCall)
    (P : Result Exception B × List GatewayCall → Type 0)
    → ((e : Exception) (after : List GatewayCall) → P (err e, after))
    → ((a : A) → (m calls).0 ≡ ok a → P (f a (m calls).1))
    → P (then_send m f calls)
then_send-rule m f calls P fails goes_on = elim (Result-cases (m calls).0) [
  | inl (e, failed) ↦ rw (failed, then_send) (fails e (m calls).1)
  | inr (a, got) ↦ rw (got, then_send) (goes_on a got)
]

existing_of-null :
    (e : Exception) (existing : Json) → existing_of (err e) ≡ ok existing → existing ≡ null
unfolding existing_of
existing_of-null (api_error e) existing h = ground arith
existing_of-null (value_error m) existing h = cc
existing_of-null (type_error m) existing h = cc
existing_of-null (timeout_error m) existing h = cc
existing_of-null (assertion_error m) existing h = cc
existing_of-null unicode_error existing h = cc
existing_of-null (key_error k) existing h = cc
existing_of-null (attribute_error k) existing h = cc
existing_of-null certificate_error existing h = cc
existing_of-null transport_error existing h = cc
existing_of-null (history_lost s n i) existing h = cc

existing_of-ok :
    (r : Result Exception Fields) (c : Context) (existing : Json)
    → existing_of r ≡ ok existing
    → reference_matches existing c ≡ true
    → (reference : Fields) × (r ≡ ok reference) × (reference_matches (obj reference) c ≡ true)
unfolding existing_of reference_matches
existing_of-ok (ok reference) c existing h m =
    let e : obj reference ≡ existing = cc in
    (reference, refl, subst (λ j. reference_matches j c ≡ true) (sym e) m)
existing_of-ok (err x) c existing h m =
    let e : existing ≡ null = existing_of-null x existing h in
    let bad : reference_matches null c ≡ true = subst (λ j. reference_matches j c ≡ true) e m in cc

module _ (server : List GatewayCall → GatewayCall → Result Exception Fields) where
  -- What shows that the gateway holds a context, after the calls `before`.
  abbrev pub Shows : Context → List GatewayCall → GatewayCall → Type 0
  Shows c before (get_context digest) =
      (digest ≡ c.digest)
      × ((reference : Fields) × (server before (get_context digest) ≡ ok reference)
          × (reference_matches (obj reference) c ≡ true))
  Shows c before (put_context d) =
      (d ≡ c) × ((answer : Fields) × (server before (put_context d) ≡ ok answer))
  Shows c before _ = ⊥

  -- Among the calls is one that shows it.
  pub record Held (c : Context) (calls : List GatewayCall) : Type 0 where
    pub later : List GatewayCall
    pub call : GatewayCall
    pub before : List GatewayCall
    pub among : calls ≡ later ++ call ∷ before
    pub shows : Shows c before call

  -- The calls `calls` are followed by others.
  pub record Follows (calls after : List GatewayCall) : Type 0 where
    pub between : List GatewayCall
    pub all : after ≡ between ++ calls

  stays_held :
      (c : Context) (calls after : List GatewayCall)
      → Follows calls after
      → Held c calls
      → Held c after
  stays_held c calls after f h = record {
    later = f.between ++ h.later;
    call = h.call;
    before = h.before;
    among =
        f.all
        ∙ ap (λ t. f.between ++ t) h.among
        ∙ sym (append_assoc f.between h.later (h.call ∷ h.before));
    shows = h.shows;
  }

  joined : (a b c : List GatewayCall) → Follows a b → Follows b c → Follows a c
  joined a b c f g = record {
    between = g.between ++ f.between;
    all = g.all ∙ ap (λ t. g.between ++ t) f.all ∙ sym (append_assoc g.between f.between a);
  }

  -- A context that is held after the calls `before`, and the calls after them.
  abbrev pub Reaches {ℓ} :
      {A : Type ℓ}
      → (List GatewayCall → Type 0)
      → List GatewayCall
      → Result Exception A × List GatewayCall
      → Type ℓ
  Reaches {A = A} P before out = (a : A) → out.0 ≡ ok a → P out.1 × Follows before out.1

  upload-Held :
      (c : Context) (calls : List GatewayCall)
      → Reaches (Held c) calls (upload_build_context server c calls)
  unfolding upload_build_context
  upload-Held c calls =
      then_send-rule (look_up server c.digest) (put_unless_held server c) calls
        (Reaches (Held c) calls) (λ e after u h. cc)
        λ existing got. elim (Bool-cases (reference_matches existing c)) [
          | inl matches ↦
              let (reference, answered, same) =
                existing_of-ok (server calls (get_context c.digest)) c existing got matches in
              rw matches λ u h. (
                record {
                  later = [];
                  call = get_context c.digest;
                  before = calls;
                  among = refl;
                  shows = (refl, (reference, answered, same));
                },
                record { between = get_context c.digest ∷ []; all = refl },
              )
          | inr missing ↦ rw missing (
              then_send-rule (make_call server (put_context c)) (λ answer. gives (ok tt))
                (get_context c.digest ∷ calls) (Reaches (Held c) calls) (λ e after u h. cc)
                λ answer got u h. (
                  record {
                    later = [];
                    call = put_context c;
                    before = get_context c.digest ∷ calls;
                    among = refl;
                    shows = (refl, (answer, got));
                  },
                  record { between = put_context c ∷ get_context c.digest ∷ []; all = refl },
                ))
        ]

  module _ (archive_of : String → Result Exception Context) where
    -- The recipe's context is held.
    abbrev pub IsHeld : List GatewayCall → ImageRecipe → Type 0
    IsHeld calls r = (c : Context) × (context_of server archive_of r ≡ ok c) × Held c calls

    AllHeld-Follows :
        (rs : List ImageRecipe) (calls after : List GatewayCall)
        → Follows calls after
        → All (IsHeld calls) rs
        → All (IsHeld after) rs
    AllHeld-Follows [] calls after f all = tt
    AllHeld-Follows (r ∷ rs) calls after f ((c, is, held), rest) =
        ((c, is, stays_held c calls after f held), AllHeld-Follows rs calls after f rest)

    pub upload_contexts-AllHeld :
        (rs : List ImageRecipe) (calls : List GatewayCall)
        → Reaches
            (λ after. All (IsHeld after) rs)
            calls
            (upload_contexts server archive_of rs calls)
    unfolding upload_contexts
    upload_contexts-AllHeld [] calls = λ rows h. (tt, record { between = []; all = refl })
    upload_contexts-AllHeld (r ∷ rs) calls =
        let Goal = Reaches {A = List Json} (λ after. All (IsHeld after) (r ∷ rs)) calls in
        let rest = upload_contexts server archive_of rs in
        then_send-rule (gives (context_of server archive_of r))
          (upload_then server archive_of r rest) calls Goal (λ e after rows h. cc)
          λ c is.
            then_send-rule (upload_build_context server c)
              (λ uploaded. then_send rest (and_row server archive_of r c)) calls Goal
              (λ e after rows h. cc)
              λ u uploaded.
                let (held, first) = upload-Held c calls u uploaded in
                then_send-rule rest (and_row server archive_of r c)
                  (upload_build_context server c calls).1 Goal (λ e after rows h. cc)
                  λ some_rows got rows h.
                    let (others, more) = upload_contexts-AllHeld rs _ some_rows got in
                    (((c, is, stays_held c _ _ more held), others), joined calls _ _ first more)
