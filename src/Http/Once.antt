-- ===== src/Http/Once.antt =====
-- How often a request is put on a connection (src/ucloud_sandboxes_sdk/_http.py, `open_reusing`).
use ucloud_sandboxes_sdk.Prelude.{
  ℕ, zero, suc, ◌≤◌, ◌<◌, String, Bool, true, false, some, List, [], ◌∷◌, ◌++◌, ◌&&◌, length, ◌≡◌,
  ◌≢◌, refl, arith, inl, inr, Bool-cases, Option-cases, eq_refl, eqb,
}
use ucloud_sandboxes_sdk.Http.Pool.{
  Key, same_key, Idle, Pool, idle_of, set_idle, is_fresh, take_idle, take_conn,
}
use ucloud_sandboxes_sdk.Http.Open.{
  Received, responded, lost, failed, no_fuel, Net, is_read, of_status, OpenResult, after_reply,
  on_new, on_found, open_reusing,
}

same_key_refl : (key : Key) → same_key key key ≡ true
same_key_refl key =
    let scheme = eq_refl key.scheme in
    let host = eq_refl key.host in
    let port : eqb key.port key.port ≡ true = ground arith in rw (scheme, host, port) refl

idle_of-set_idle :
    (pool : Pool) (key : Key) (idle : List Idle) → idle_of (set_idle pool key idle) key ≡ idle
idle_of-set_idle [] key idle = rw (same_key_refl key) refl
idle_of-set_idle ((k, old) ∷ pool) key idle =
    let ih = idle_of-set_idle pool key idle in
    elim (Bool-cases (same_key key k)) [ inl e ↦ rw e (rw e refl) | inr e ↦ rw e (rw e ih) ]

take_idle-some :
    (dropped : ℕ → Bool) (now : ℕ) (idle : List Idle) (conn : ℕ)
    → (take_idle dropped now idle).0 ≡ some conn
    → length (take_idle dropped now idle).1 < length idle
unfolding take_idle
take_idle-some dropped now [] conn h = cc
take_idle-some dropped now (entry ∷ idle) conn h = elim (Bool-cases (is_fresh dropped now entry)) [
  | inl e ↦ rw e (omega arith)
  | inr e ↦ let ih = take_idle-some dropped now idle conn (ground arith) in rw e (omega (arith, ih))
]

take_conn-some :
    (dropped : ℕ → Bool) (now : ℕ) (pool : Pool) (key : Key) (conn : ℕ)
    → (take_conn dropped now pool key).0 ≡ some conn
    → length (idle_of (take_conn dropped now pool key).1 key) < length (idle_of pool key)
unfolding take_conn
take_conn-some dropped now pool key conn h =
    let less = take_idle-some dropped now (idle_of pool key) conn h in
    rw (idle_of-set_idle pool key (take_idle dropped now (idle_of pool key)).1) less

module _ (net : Net) (key : Key) (method : String) where
  of_status-ends : (conn status : ℕ) → of_status conn status ≢ no_fuel
  of_status-ends conn status h = ground arith

  after_reply-tries :
      (reply : Received) (conn : ℕ) (reused : Bool) (pool : Pool) (closed : List ℕ)
      (rest : OpenResult)
      → let r = after_reply net key method reply conn reused pool closed rest in
        (length r.tries ≤ suc (length rest.tries))
        × ((reused && is_read method) ≡ false → (length r.tries ≤ 1) × (r.opened ≢ no_fuel))
        × (rest.opened ≢ no_fuel → r.opened ≢ no_fuel)
  unfolding after_reply
  after_reply-tries (responded status) conn reused pool closed rest =
      (omega arith, λ h. (omega arith, of_status-ends conn status), λ h. of_status-ends conn status)
  after_reply-tries failed conn reused pool closed rest =
      (omega arith, λ h. (omega arith, λ p. cc), λ h p. cc)
  after_reply-tries lost conn reused pool closed rest =
      elim (Bool-cases (reused && is_read method)) [
        | inl e ↦ rw e (omega arith, λ h. absurd (ground arith), λ h. h)
        | inr e ↦ rw e (omega arith, λ h. (omega arith, λ p. cc), λ h p. cc)
      ]

  on_new-tries :
      (number : ℕ) (pool : Pool) (closed : List ℕ)
      → (length (on_new net key method number pool closed).tries ≤ 1)
        × ((on_new net key method number pool closed).opened ≢ no_fuel)
  unfolding on_new
  on_new-tries number pool closed = elim (Option-cases (net.connect number)) [
    | inl e ↦ rw (e, on_new) (omega arith, λ p. cc)
    | inr (conn, e) ↦
        rw (e, on_new) ((after_reply-tries (net.reply number) conn false pool closed _).1 refl)
  ]

  -- Opening a request ends with a response or an error, after at most one try more than the origin
  -- has idle connections, and fuel past their number is enough; a request that is neither GET nor HEAD
  -- is put on a connection at most once.
  pub open_reusing_once :
      (fuel number : ℕ) (pool : Pool) (closed : List ℕ)
      → length (idle_of pool key) < fuel
      → let r = open_reusing net key method fuel number pool closed in
        (r.opened ≢ no_fuel)
        × (length r.tries ≤ suc (length (idle_of pool key)))
        × (is_read method ≡ false → length r.tries ≤ 1)
  unfolding open_reusing on_found
  open_reusing_once zero number pool closed h = absurd (omega arith)
  open_reusing_once (suc fuel) number pool closed h =
      let taken = take_conn (net.dropped number) (net.now number) pool key in
      elim (Option-cases taken.0) [
        | inl e ↦
            let (one, ends) = on_new-tries number taken.1 (taken.2 ++ closed) in
            rw e (ends, omega (arith, one), λ _. one)
        | inr (conn, e) ↦
            let fewer = take_conn-some (net.dropped number) (net.now number) pool key conn e in
            let (ends, tries, once) =
              open_reusing_once fuel (suc number) taken.1 (conn ∷ (taken.2 ++ closed))
                (omega (arith, h, fewer)) in
            let (more, last, keeps) =
              after_reply-tries (net.reply number) conn true taken.1 (taken.2 ++ closed) (
                open_reusing net key method fuel (suc number) taken.1
                  (conn ∷ (taken.2 ++ closed))) in
            rw e (keeps ends, omega (arith, more, tries, fewer), λ read. (last read).0)
      ]
