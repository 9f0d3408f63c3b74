-- ===== src/Relay/Renewed.antt =====
-- What a renewal of a lease may change (src/ucloud_sandboxes_sdk/relay.py: `_renewed_request`,
-- `_renewal_interval`).
use ucloud_sandboxes_sdk.Prelude.{
  ℕ, ◌*◌, ◌≤◌, ◌<◌, String, Bool, true, Option, none, some, List, [], ◌∷◌, ℤ, pos, negsuc, eq_iff,
  eqb→eq, ◌≡◌, refl, ap, arith, sym, subst, ◌∙◌, ◌==◌, all, length, eqb, both_true, Bool-cases, inl,
  inr,
}
use ucloud_sandboxes_sdk.Json.{Fields}
use ucloud_sandboxes_sdk.Errors.{ok}
use ucloud_sandboxes_sdk.Runtime.{Runtime}
use ucloud_sandboxes_sdk.Relay.Values.{same_int, same_option, same_json, same_headers, look}
use ucloud_sandboxes_sdk.Relay.Request.{Request}
use ucloud_sandboxes_sdk.Relay.Renewal.{
  same_text, same_bytes, same_content, same_delivery, same_request, valid_transition,
  expected_request, renewed_request, renewal_interval, is_some,
}

same_int-eq : (a b : ℤ) → same_int a b ≡ true → a ≡ b
same_int-eq (pos m) (pos n) h = ap pos (eqb→eq m n h)
same_int-eq (negsuc m) (negsuc n) h = ap negsuc (eqb→eq m n h)
same_int-eq (pos m) (negsuc n) h = cc
same_int-eq (negsuc m) (pos n) h = cc

same_bytes-eq : (a b : List ℕ) → same_bytes a b ≡ true → a ≡ b
same_bytes-eq [] [] h = refl
same_bytes-eq (a ∷ s) (b ∷ t) h = ground (arith, same_bytes-eq s t)
same_bytes-eq [] (b ∷ t) h = cc
same_bytes-eq (a ∷ s) [] h = cc

same_option-eq :
    {A : Type 0} (same : A → A → Bool)
    → ((a b : A) → same a b ≡ true → a ≡ b)
    → (x y : Option A) → same_option same x y ≡ true
    → x ≡ y
same_option-eq same eq none none h = refl
same_option-eq same eq (some a) (some b) h = ap some (eq a b h)
same_option-eq same eq none (some b) h = cc
same_option-eq same eq (some a) none h = cc

same_text-eq : (s t : String) → same_text s t ≡ true → s ≡ t
same_text-eq s t h = (eq_iff s t).0 h

-- As many headers, and each is one of before.
pub record KeepsHeaders (previous renewed : List (String × String)) : Type 0 where
  pub as_many : length renewed ≡ length previous
  pub among : (k v : String) → look k renewed ≡ some v → look k previous ≡ some v

-- What the relay records of the delivery, but for the end of the lease and the worker's transport.
pub record KeepsDelivery (previous renewed : Request) : Type 0 where
  pub created_at : renewed.created_at ≡ previous.created_at
  pub delivered_at : renewed.delivered_at ≡ previous.delivered_at
  pub first_delivered_at : renewed.first_delivered_at ≡ previous.first_delivered_at
  pub leased_by : renewed.leased_by ≡ previous.leased_by
  pub delivery_count : renewed.delivery_count ≡ previous.delivery_count
  pub sandbox_id : renewed.sandbox_id ≡ previous.sandbox_id
  pub sandbox_generation : renewed.sandbox_generation ≡ previous.sandbox_generation
  pub expires_at : renewed.expires_at ≡ previous.expires_at
  pub idempotency_key : renewed.idempotency_key ≡ previous.idempotency_key

abbrev holds_in : List (String × String) → String × String → Bool
holds_in b (k, v) = same_option (λ s t. s == t) (some v) (look k b)

same_value :
    (v : String) (o : Option String) → same_option (λ s t. s == t) (some v) o ≡ true → o ≡ some v
same_value v (some w) h = ap some (sym ((eq_iff v w).0 h))
same_value v none h = cc

look-all :
    (a b : List (String × String)) (k v : String)
    → all (holds_in b) a ≡ true
    → look k a ≡ some v
    → look k b ≡ some v
look-all [] b k v h e = cc
look-all ((j, w) ∷ a) b k v h e =
    let (first, rest) = both_true (holds_in b (j, w)) _ h in
    elim (Bool-cases (j == k)) [
      | inl same ↦
          let key : j ≡ k = (eq_iff j k).0 same in
          let value : w ≡ v = ground arith in
          subst (λ k. look k b ≡ some v) key (same_value w (look j b) first ∙ ap some value)
      | inr other ↦ look-all a b k v rest (ground arith)
    ]

-- A renewed request is the one before, by its ids, its lease and its content, and what it says of
-- the worker's transport only moves forward.
pub record Renews (previous renewed : Request) : Type 0 where
  pub request_id : renewed.request_id ≡ previous.request_id
  pub rollout_id : renewed.rollout_id ≡ previous.rollout_id
  pub registration_token : renewed.registration_token ≡ previous.registration_token
  pub lease_id : renewed.lease_id ≡ previous.lease_id
  pub endpoint : renewed.endpoint ≡ previous.endpoint
  pub method : renewed.method ≡ previous.method
  pub body_bytes : renewed.body_bytes ≡ previous.body_bytes
  pub headers : KeepsHeaders previous.headers renewed.headers
  -- equal as Python compares decoded values
  pub body : same_json renewed.body previous.body ≡ true
  pub delivery : KeepsDelivery previous renewed
  pub stays_reattachable : previous.reattachable ≡ true → renewed.reattachable ≡ true
  pub stays_accepted :
      (t : ℤ) → previous.accepted_notified_at ≡ some t → renewed.accepted_notified_at ≡ some t
  pub stays_parked :
      (e : String)
      → previous.parked_transport_epoch ≡ some e
      → renewed.parked_transport_epoch ≡ some e
  pub parked_once_accepted :
      (e : String)
      → renewed.parked_transport_epoch ≡ some e
      → is_some renewed.accepted_notified_at ≡ true

content-parts :
    (a b : Request)
    → same_content a b ≡ true
    → ((a.request_id ≡ b.request_id)
        × (a.rollout_id ≡ b.rollout_id)
        × (a.registration_token ≡ b.registration_token))
      × ((a.lease_id ≡ b.lease_id) × (a.endpoint ≡ b.endpoint) × (a.method ≡ b.method))
      × (a.body_bytes ≡ b.body_bytes)
      × (same_headers a.headers b.headers ≡ true)
      × (same_json a.body b.body ≡ true)
unfolding same_content
content-parts a b h = (
  (
    same_text-eq _ _ (ground arith),
    same_text-eq _ _ (ground arith),
    same_text-eq _ _ (ground arith),
  ),
  (
    same_text-eq _ _ (ground arith),
    same_text-eq _ _ (ground arith),
    same_text-eq _ _ (ground arith),
  ),
  same_bytes-eq _ _ (ground arith),
  ground arith,
  ground arith,
)

same_headers-KeepsHeaders :
    (a b : List (String × String)) → same_headers a b ≡ true → KeepsHeaders b a
same_headers-KeepsHeaders a b h =
    let (count, found) = both_true (eqb (length a) (length b)) _ h in
    record { as_many = eqb→eq _ _ count; among = λ k v. look-all a b k v found }

delivery-parts : (a b : Request) → same_delivery a b ≡ true → KeepsDelivery b a
unfolding same_delivery
delivery-parts a b h =
    let (h12, p12) = both_true _ _ h in
    let (h11, p11) = both_true _ _ h12 in
    let (h10, p10) = both_true _ _ h11 in
    let (h9, p9) = both_true _ _ h10 in
    let (h8, p8) = both_true _ _ h9 in
    let (h7, p7) = both_true _ _ h8 in
    let (h6, p6) = both_true _ _ h7 in
    let (h5, p5) = both_true _ _ h6 in
    let (h4, p4) = both_true _ _ h5 in
    let (h3, p3) = both_true _ _ h4 in
    let (h2, p2) = both_true _ _ h3 in
    let (h1, p1) = both_true _ _ h2 in
    record {
      created_at = same_option-eq same_int same_int-eq _ _ h1;
      delivered_at = same_option-eq same_int same_int-eq _ _ p1;
      first_delivered_at = same_option-eq same_int same_int-eq _ _ p2;
      leased_by = same_option-eq same_text same_text-eq _ _ p4;
      delivery_count = same_int-eq _ _ p5;
      sandbox_id = same_option-eq same_text same_text-eq _ _ p6;
      sandbox_generation = same_option-eq same_int same_int-eq _ _ p7;
      expires_at = same_option-eq same_int same_int-eq _ _ p8;
      idempotency_key = same_option-eq same_text same_text-eq _ _ p9;
    }

keeps_delivery :
    (previous renewed : Request)
    → same_delivery renewed (expected_request previous renewed) ≡ true
    → KeepsDelivery previous renewed
unfolding expected_request
keeps_delivery previous renewed h =
    let d = delivery-parts renewed (expected_request previous renewed) h in
    record {
      created_at = d.created_at;
      delivered_at = d.delivered_at;
      first_delivered_at = d.first_delivered_at;
      leased_by = d.leased_by;
      delivery_count = d.delivery_count;
      sandbox_id = d.sandbox_id;
      sandbox_generation = d.sandbox_generation;
      expires_at = d.expires_at;
      idempotency_key = d.idempotency_key;
    }

module _ (previous renewed : Request) (h : valid_transition previous renewed ≡ true) where
  keeps_reattachable : previous.reattachable ≡ true → renewed.reattachable ≡ true
  unfolding valid_transition
  keeps_reattachable p = ground arith

  keeps_accepted :
      (t : ℤ) → previous.accepted_notified_at ≡ some t → renewed.accepted_notified_at ≡ some t
  unfolding valid_transition
  keeps_accepted t p = ground (
    arith,
    same_option-eq same_int same_int-eq renewed.accepted_notified_at previous.accepted_notified_at,
  )

  keeps_parked :
      (e : String)
      → previous.parked_transport_epoch ≡ some e
      → renewed.parked_transport_epoch ≡ some e
  unfolding valid_transition
  keeps_parked e p = ground (
    arith,
    same_option-eq same_text same_text-eq renewed.parked_transport_epoch
        previous.parked_transport_epoch,
  )

  parked_accepted :
      (e : String)
      → renewed.parked_transport_epoch ≡ some e
      → is_some renewed.accepted_notified_at ≡ true
  unfolding valid_transition
  parked_accepted e p = ground arith

renewed-tests :
    (py : Runtime) (response : Fields) (previous r : Request)
    → renewed_request py response previous ≡ ok r
    → (valid_transition previous r ≡ true) × (same_request r (expected_request previous r) ≡ true)
unfolding renewed_request
renewed-tests py response previous r h = ground arith

request-parts :
    (a b : Request)
    → same_request a b ≡ true
    → (same_content a b ≡ true) × (same_delivery a b ≡ true)
unfolding same_request
request-parts a b h = both_true (same_content a b) (same_delivery a b) h

-- A renewal that is accepted is of the same request: with the same ids, lease, endpoint, method,
-- headers, body (its decoded form as Python compares it) and record of its delivery, but for the end
-- of the lease; and what it says of the worker's transport only moves forward.
pub renewed_request-Renews :
    (py : Runtime) (response : Fields) (previous r : Request)
    → renewed_request py response previous ≡ ok r
    → Renews previous r
unfolding expected_request
renewed_request-Renews py response previous r h =
    let (valid, same) = renewed-tests py response previous r h in
    let (content, delivered) = request-parts r (expected_request previous r) same in
    let ((id, rollout, token), (lease, endpoint, method), bytes, sent_headers, decoded) =
      content-parts r (expected_request previous r) content in
    record {
      request_id = id;
      rollout_id = rollout;
      registration_token = token;
      lease_id = lease;
      endpoint = endpoint;
      method = method;
      body_bytes = bytes;
      headers = same_headers-KeepsHeaders r.headers previous.headers sent_headers;
      body = decoded;
      delivery = keeps_delivery previous r delivered;
      stays_reattachable = keeps_reattachable previous r valid;
      stays_accepted = keeps_accepted previous r valid;
      stays_parked = keeps_parked previous r valid;
      parked_once_accepted = parked_accepted previous r valid;
    }

-- An accepted interval between renewals, in thirds of a microsecond, is positive and shorter than
-- the lease, and where the caller names none it is at most a minute.
pub renewal_interval-bounds :
    (lease : ℤ) (given : Option ℤ) (interval : ℕ)
    → renewal_interval lease given ≡ ok interval
    → (l : ℕ) × (lease ≡ pos l)
      × (0 < interval)
      × (interval < 3 * l)
      × (given ≡ none → interval ≤ 3 * 60000000)
unfolding renewal_interval
renewal_interval-bounds (pos l) given interval h =
    (l, refl, ground arith, ground arith, λ p. ground arith)
renewal_interval-bounds (negsuc l) given interval h = cc
