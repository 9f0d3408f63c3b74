-- ===== src/Image/Settled.antt =====
-- What a wait for images returns, and that it ends (src/ucloud_sandboxes_sdk/client.py:
-- `SandboxClient.wait_for_images`).
use ucloud_sandboxes_sdk.Prelude.{
  ℕ, zero, suc, ◌+◌, ◌-◌, ◌<◌, String, true, Option, some, List, [], ◌∷◌, ◌==◌, min, eqb, leb,
  length, if◌then◌else◌, ◌≡◌, ◌≢◌, refl, sym, ap, subst, ◌∙◌, inl, inr, Bool-cases, Option-cases,
  arith,
}
use ucloud_sandboxes_sdk.Json.{Json, Fields, end, field, get, has}
use ucloud_sandboxes_sdk.Errors.{Exception, ok, >>=-eq-ok, Result-cases, ok-injective}
use ucloud_sandboxes_sdk.Clock.{remaining}
use ucloud_sandboxes_sdk.Transport.Loop.{Ended, returned, raised, out_of_fuel}
use ucloud_sandboxes_sdk.Image.Names.{distinct, image_names}
use ucloud_sandboxes_sdk.Image.Ensure.{
  Reply, Ensured, put_status, update, ensure_images, ensure_images-at, image_names-ok,
}
use ucloud_sandboxes_sdk.Image.Wait.{
  settles, settled_of, pending, count_keys, pick, statuses_polled, Waited, left_of, after_statuses,
  after_ensure, images_loop, wait_for_images,
}

abbrev pub keys : Fields → List String
keys end = []
keys (field k _ fs) = k ∷ keys fs

-- Every status is settled.
abbrev pub AllSettled : Fields → Type 0
AllSettled end = Unit
AllSettled (field _ status fs) = (settles status ≡ ok true) × AllSettled fs

put_status-AllSettled :
    (fs : Fields) (name : String) (v : Json)
    → AllSettled fs
    → settles v ≡ ok true
    → AllSettled (put_status fs name v)
put_status-AllSettled end name v all is = (is, tt)
put_status-AllSettled (field k u fs) name v (first, rest) is = elim (Bool-cases (k == name)) [
  | inl same ↦ rw same (is, rest)
  | inr other ↦ rw other (first, put_status-AllSettled fs name v rest is)
]

update-AllSettled :
    (fs more : Fields) → AllSettled fs → AllSettled more → AllSettled (update fs more)
update-AllSettled fs end all new = all
update-AllSettled fs (field k v more) all (is, new) =
    update-AllSettled (put_status fs k v) more (put_status-AllSettled fs k v all is) new

settled_of-AllSettled : (fs out : Fields) → settled_of fs ≡ ok out → AllSettled out
unfolding settled_of
settled_of-AllSettled end out h = subst AllSettled (ok-injective h) tt
settled_of-AllSettled (field name status fs) out h =
    let (is, one, more) = >>=-eq-ok (settles status) _ h in
    let (others, rest, same) = >>=-eq-ok (settled_of fs) _ more in
    let tail = settled_of-AllSettled fs others rest in
    elim (Bool-cases is) [
      | inl counts ↦
          subst AllSettled
            (ap (λ b. if b then field name status others else others) (sym counts)
              ∙ ok-injective same)
            (one ∙ ap ok counts, tail)
      | inr unsettled ↦
          subst AllSettled
            (ap (λ b. if b then field name status others else others) (sym unsettled)
              ∙ ok-injective same)
            tail
    ]

get-AllSettled :
    (fs : Fields) (name : String)
    → AllSettled fs
    → has fs name ≡ true
    → settles (get fs name) ≡ ok true
get-AllSettled end name all h = cc
get-AllSettled (field k u fs) name (first, rest) h = elim (Bool-cases (k == name)) [
  | inl same ↦ rw same first
  | inr other ↦ rw other (get-AllSettled fs name rest (ground arith))
]

pick-AllSettled :
    (names : List String) (settled out : Fields)
    → AllSettled settled
    → pick names settled ≡ ok out
    → (keys out ≡ names) × AllSettled out
unfolding pick
pick-AllSettled [] settled out all h =
    subst (λ fs. (keys fs ≡ []) × AllSettled fs) (ok-injective h) (refl, tt)
pick-AllSettled (name ∷ names) settled out all h = elim (Bool-cases (has settled name)) [
  | inr missing ↦ absurd (ground arith)
  | inl there ↦
      let (rest, got, same) =
        >>=-eq-ok (pick names settled) (λ rest. ok (field name (get settled name) rest))
          (ground arith) in
      let (named, tail) = pick-AllSettled names settled rest all got in
      subst (λ fs. (keys fs ≡ name ∷ names) × AllSettled fs) (ok-injective same)
        (ap (λ t. name ∷ t) named, (get-AllSettled settled name all there, tail))
]

module _ (names : List String) (d : Option ℕ) (poll_interval : ℕ) (P : Ended Fields → Type 0)
    (raises : (x : Exception) → P (raised x)) where
  abbrev Goes : ℕ → (ℕ → Waited) → Type 0
  Goes now rest =
      (pause : ℕ)
      → ((l : ℕ) → d ≡ some l → (now < l) × (0 < poll_interval → 0 < pause))
      → P (rest pause).end

  after_statuses-rule :
      (server : ℕ → List String → Option ℕ → Reply) (overslept : ℕ → ℕ) (now : ℕ) (settled : Fields)
      (rest : ℕ → Waited)
      → ((all : Fields) → pick names settled ≡ ok all → P (returned all))
      → Goes now rest
      → P (after_statuses server overslept names d poll_interval now settled rest).end
  unfolding after_statuses remaining
  after_statuses-rule server overslept now settled rest returns goes_on =
      elim (Bool-cases (eqb (count_keys settled) (length names))) [
        | inl complete ↦ elim (Result-cases (pick names settled)) [
          | inl (x, missing) ↦ rw (complete, missing, after_statuses) (raises x)
          | inr (all, got) ↦ rw (complete, got, after_statuses) (returns all got)
        ]
        | inr more ↦ elim (Option-cases d) [
          | inl no_deadline ↦
              rw (more, no_deadline, after_statuses) (goes_on poll_interval (λ l h. cc))
          | inr (l, deadline) ↦ elim (Bool-cases (leb (l - now) 0)) [
            | inl late ↦ rw (more, deadline, late, after_statuses) (raises _)
            | inr early ↦
                rw (more, deadline, early, after_statuses)
                  (goes_on (min poll_interval (l - now))
                    (λ m h. let e : l ≡ m = cc in (ground arith, λ p. ground arith)))
          ]
        ]
      ]

  after_ensure-rule :
      (server : ℕ → List String → Option ℕ → Reply) (overslept : ℕ → ℕ) (e : Ensured)
      (settled : Fields) (rest : Fields → ℕ → Waited)
      → AllSettled settled
      → ((known all : Fields) → AllSettled known → pick names known ≡ ok all → P (returned all))
      → ((known : Fields) → AllSettled known → Goes e.at (rest known))
      → P (after_ensure server overslept names d poll_interval e settled rest).end
  unfolding after_ensure
  after_ensure-rule server overslept e settled rest all returns goes_on =
      elim (Result-cases (statuses_polled e.outcome)) [
        | inl (x, failed) ↦ rw (failed, after_ensure) (raises x)
        | inr (current, fine) ↦ elim (Result-cases (settled_of current)) [
          | inl (x, bad) ↦ rw (fine, bad, after_ensure) (raises x)
          | inr (fresh, got) ↦
              let known =
                update-AllSettled settled fresh all (settled_of-AllSettled current fresh got) in
              rw (fine, got, after_ensure)
                (after_statuses-rule server overslept e.at (update settled fresh)
                  (rest (update settled fresh)) (λ out. returns (update settled fresh) out known)
                  (goes_on (update settled fresh) known))
        ]
      ]

images_loop-AllSettled :
    (server : ℕ → List String → Option ℕ → Reply) (overslept : ℕ → ℕ) (names : List String)
    (d : Option ℕ) (poll_interval fuel number now : ℕ) (settled out : Fields)
    → AllSettled settled
    → (images_loop server overslept names d poll_interval fuel number now settled).end
      ≡ returned out
    → (keys out ≡ names) × AllSettled out
unfolding images_loop
images_loop-AllSettled server overslept names d poll_interval zero number now settled out all =
    λ h. cc
images_loop-AllSettled server overslept names d poll_interval (suc fuel) number now settled out
      all =
    let e = ensure_images server (left_of d now) (pending names settled) number now in
    let rest : Fields → ℕ → Waited = λ known pause.
      images_loop server overslept names d poll_interval fuel e.number
        (e.at + (pause + overslept e.number)) known in
    after_ensure-rule names d poll_interval
      (λ r. r ≡ returned out → (keys out ≡ names) × AllSettled out) (λ x h. cc) server overslept e
      settled rest all
      (λ known found fine got h.
        let same : found ≡ out = cc in
        subst (λ fs. (keys fs ≡ names) × AllSettled fs) same
          (pick-AllSettled names known found fine got))
      (λ known fine pause goes.
        images_loop-AllSettled server overslept names d poll_interval fuel e.number
          (e.at + (pause + overslept e.number)) known out fine)

-- The statuses that a wait for images returns are those of the names asked for, each name once and
-- in the order of the first mentions, and each status is settled.
pub wait_for_images-AllSettled :
    (server : ℕ → List String → Option ℕ → Reply) (overslept : ℕ → ℕ) (names : List String)
    (d : Option ℕ) (poll_interval fuel now : ℕ) (out : Fields)
    → (wait_for_images server overslept names d poll_interval fuel now).end ≡ returned out
    → (keys out ≡ distinct names) × AllSettled out
unfolding wait_for_images
wait_for_images-AllSettled server overslept names d poll_interval fuel now out =
    elim (Result-cases (image_names names)) [
      | inl (x, bad) ↦ rw (bad, wait_for_images) (λ h. cc)
      | inr (given, fine) ↦
          rw (fine, wait_for_images)
            λ h.
              let (named, all) =
                images_loop-AllSettled server overslept given d poll_interval fuel 0 now end out tt
                  h in
              (named ∙ image_names-ok names given fine, all)
    ]

wait_loop_ends :
    (server : ℕ → List String → Option ℕ → Reply) (overslept : ℕ → ℕ) (names : List String)
    (l poll_interval fuel number now : ℕ) (settled : Fields)
    → AllSettled settled
    → 0 < poll_interval
    → l - now < fuel
    → (images_loop server overslept names (some l) poll_interval fuel number now settled).end
      ≢ out_of_fuel
unfolding images_loop
wait_loop_ends server overslept names l poll_interval zero number now settled all positive h =
    absurd (omega (arith, h))
wait_loop_ends server overslept names l poll_interval (suc fuel) number now settled all positive h =
    let e = ensure_images server (left_of (some l) now) (pending names settled) number now in
    let rest : Fields → ℕ → Waited = λ known pause.
      images_loop server overslept names (some l) poll_interval fuel e.number
        (e.at + (pause + overslept e.number)) known in
    let later = ensure_images-at server (left_of (some l) now) (pending names settled) number now in
    after_ensure-rule names (some l) poll_interval (λ r. r ≢ out_of_fuel) (λ x p. cc) server
      overslept e settled rest all (λ known found fine got p. cc)
      (λ known fine pause goes.
        let (early, some_pause) = goes l refl in
        wait_loop_ends server overslept names l poll_interval fuel e.number
          (e.at + (pause + overslept e.number)) known fine positive
          (omega (arith, h, later, early, some_pause positive)))

-- With a deadline and a positive poll interval, a wait for images ends, once the fuel is past the
-- microseconds that are left, whatever the gateway answers.
pub wait_for_images_ends :
    (server : ℕ → List String → Option ℕ → Reply) (overslept : ℕ → ℕ) (names : List String)
    (l poll_interval fuel now : ℕ)
    → 0 < poll_interval
    → l - now < fuel
    → (wait_for_images server overslept names (some l) poll_interval fuel now).end ≢ out_of_fuel
unfolding wait_for_images
wait_for_images_ends server overslept names l poll_interval fuel now positive h =
    elim (Result-cases (image_names names)) [
      | inl (x, bad) ↦ rw (bad, wait_for_images) (λ p. cc)
      | inr (given, fine) ↦
          rw (fine, wait_for_images)
            (wait_loop_ends server overslept given l poll_interval fuel 0 now end tt positive h)
    ]
