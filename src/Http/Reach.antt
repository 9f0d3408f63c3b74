-- ===== src/Http/Reach.antt =====
-- The pool that several threads share, as a step relation (src/ucloud_sandboxes_sdk/_http.py:
-- `_ConnectionPool`, `_PooledResponse`, `open_reusing`).
use ucloud_sandboxes_sdk.Prelude.{
  ℕ, suc, ◌+◌, ◌≤◌, Bool, not, ◌&&◌, Option, Option-cases, none, some, List, [], ◌∷◌, ◌++◌, eqb,
  ltb, length, All, ◌≡◌, refl, ap, subst, ◌∙◌, arith, ◌⊎◌, inl, inr, ltb→lt, Bool-cases,
  if◌then◌else◌,
}
use ucloud_sandboxes_sdk.Http.Pool.{
  Key, same_key, Idle, Pool, idle_of, set_idle, max_idle, give_conn, pop_idle,
}
use ucloud_sandboxes_sdk.Http.Open.{Pooled, close_response}

-- A connection that a thread has: with the origin that it was opened for.
abbrev pub Held : Type 0
Held = Key × ℕ

pub record World : Type 0 where
  pub pool : Pool
  -- the connections between their opening and their response
  pub held : List Held
  -- the responses, closed or not
  pub responses : List Pooled
  -- the number of connections opened so far
  pub opened : ℕ

-- One thing that a thread does under the lock, or with a connection or a response that it has. `take`
-- pops entries until one is fresh, and closes the others; `open_reusing` connects anew where it finds
-- none. A response is closed any number of times.
pub data Step : World → World → Type 0 where
  pops :
      (w : World) (key : Key) (entry : Idle) (pool : Pool)
      → pop_idle w.pool key ≡ some (entry, pool)
      → Step w (record w { pool = pool; held = (key, entry.conn) ∷ w.held })
  connects :
      (w : World) (key : Key)
      → Step w (record w { held = (key, w.opened) ∷ w.held; opened = suc w.opened })
  -- the connection is stale, or its request fails
  drops :
      (w : World) (before after : List Held) (key : Key) (conn : ℕ)
      → w.held ≡ before ++ (key, conn) ∷ after
      → Step w (record w { held = before ++ after })
  responds :
      (w : World) (before after : List Held) (key : Key) (conn : ℕ) (is_closed will_close : Bool)
      → w.held ≡ before ++ (key, conn) ∷ after
      → Step w (record w {
        held = before ++ after;
        responses =
            record { key = key; conn = some conn; is_closed = is_closed; will_close = will_close }
            ∷ w.responses;
      })
  reads :
      (w : World) (before after : List Pooled) (r : Pooled) (is_closed : Bool)
      → w.responses ≡ before ++ r ∷ after
      → Step w (record w { responses = before ++ record r { is_closed = is_closed } ∷ after })
  closes :
      (w : World) (before after : List Pooled) (r : Pooled) (now : ℕ)
      → w.responses ≡ before ++ r ∷ after
      → Step w (record w {
        pool = (close_response now r w.pool).1;
        responses = before ++ (close_response now r w.pool).0 ∷ after;
      })

pub data Reachable : World → Type 0 where
  start : Reachable (record { pool = []; held = []; responses = []; opened = 0 })
  next : {v w : World} → Reachable v → Step v w → Reachable w

-- How often a connection is idle, held, and of a response that is not closed.
abbrev one_if : Bool → ℕ
one_if b = if b then 1 else 0

abbrev pub count_idle : ℕ → List Idle → ℕ
count_idle c [] = 0
count_idle c (entry ∷ idle) = one_if (eqb c entry.conn) + count_idle c idle

abbrev pub count_pool : ℕ → Pool → ℕ
count_pool c [] = 0
count_pool c ((key, idle) ∷ pool) = count_idle c idle + count_pool c pool

abbrev pub count_held : ℕ → List Held → ℕ
count_held c [] = 0
count_held c ((key, conn) ∷ held) = one_if (eqb c conn) + count_held c held

abbrev pub count_conn : ℕ → Option ℕ → ℕ
count_conn c none = 0
count_conn c (some conn) = one_if (eqb c conn)

abbrev pub count_responses : ℕ → List Pooled → ℕ
count_responses c [] = 0
count_responses c (r ∷ rs) = count_conn c r.conn + count_responses c rs

count_pool-set_idle :
    (c : ℕ) (pool : Pool) (key : Key) (idle : List Idle)
    → count_pool c (set_idle pool key idle) + count_idle c (idle_of pool key)
      ≡ count_pool c pool + count_idle c idle
count_pool-set_idle c [] key idle = omega arith
count_pool-set_idle c ((k, old) ∷ pool) key idle =
    let ih = count_pool-set_idle c pool key idle in
    elim (Bool-cases (same_key key k)) [
      | inl e ↦ rw e (omega arith)
      | inr e ↦ rw e (omega (arith, ih))
    ]

count_held-middle :
    (c : ℕ) (before after : List Held) (key : Key) (conn : ℕ)
    → count_held c (before ++ (key, conn) ∷ after)
      ≡ one_if (eqb c conn) + count_held c (before ++ after)
count_held-middle c [] after key conn = refl
count_held-middle c ((k, d) ∷ before) after key conn =
    omega (arith, count_held-middle c before after key conn)

count_responses-middle :
    (c : ℕ) (before after : List Pooled) (r : Pooled)
    → count_responses c (before ++ r ∷ after)
      ≡ count_conn c r.conn + count_responses c (before ++ after)
count_responses-middle c [] after r = refl
count_responses-middle c (s ∷ before) after r =
    omega (arith, count_responses-middle c before after r)

-- At most the connections below the number opened are in use, each once.
abbrev Once : World → Type 0
Once w =
    (c : ℕ)
    → count_pool c w.pool + count_held c w.held + count_responses c w.responses
      ≤ one_if (ltb c w.opened)

abbrev pub WithinIdle : Pool → Type 0
WithinIdle pool = All (λ e. length e.1 ≤ 16) pool

idle_of-le : (pool : Pool) (key : Key) → WithinIdle pool → length (idle_of pool key) ≤ 16
idle_of-le [] key h = omega arith
idle_of-le ((k, idle) ∷ pool) key h =
    let ih = idle_of-le pool key h.1 in
    elim (Bool-cases (same_key key k)) [ inl e ↦ rw e h.0 | inr e ↦ rw e ih ]

set_idle-WithinIdle :
    (pool : Pool) (key : Key) (idle : List Idle)
    → WithinIdle pool
    → length idle ≤ 16
    → WithinIdle (set_idle pool key idle)
set_idle-WithinIdle [] key idle h k = (k, tt)
set_idle-WithinIdle ((l, old) ∷ pool) key idle h k =
    let ih = set_idle-WithinIdle pool key idle h.1 k in
    elim (Bool-cases (same_key key l)) [ inl e ↦ rw e (k, h.1) | inr e ↦ rw e (h.0, ih) ]

idle-cases :
    (idle : List Idle) → (idle ≡ []) ⊎ ((first : Idle) × (rest : List Idle) × (idle ≡ first ∷ rest))
idle-cases [] = inl refl
idle-cases (first ∷ rest) = inr (first, rest, refl)

-- What a pop and a return do to the counts and the bound.
pop_idle-counts :
    (pool : Pool) (key : Key) (entry : Idle) (less : Pool)
    → pop_idle pool key ≡ some (entry, less)
    → ((c : ℕ) → count_pool c less + one_if (eqb c entry.conn) ≡ count_pool c pool)
      × (WithinIdle pool → WithinIdle less)
unfolding pop_idle
pop_idle-counts pool key entry less h = elim (idle-cases (idle_of pool key)) [
  | inl e ↦ absurd (ground arith)
  | inr (first, idle, e) ↦
      let same : first ≡ entry = ground arith in
      let rest : set_idle pool key idle ≡ less = ground arith in
      (
        λ c.
            let at : count_idle c (idle_of pool key)
                ≡ one_if (eqb c entry.conn) + count_idle c idle =
              ap (count_idle c) e
              ∙ ap (λ (x : Idle). one_if (eqb c x.conn) + count_idle c idle) same in
            omega (arith, count_pool-set_idle c pool key idle, at, ap (count_pool c) rest),
        λ within. subst WithinIdle rest (
            set_idle-WithinIdle pool key idle within
              (omega (arith, idle_of-le pool key within, ap length e))),
      )
]

give_conn-counts :
    (now : ℕ) (pool : Pool) (key : Key) (conn : ℕ)
    → ((c : ℕ)
        → count_pool c (give_conn now pool key conn).0 ≤ count_pool c pool + one_if (eqb c conn))
      × (WithinIdle pool → WithinIdle (give_conn now pool key conn).0)
unfolding give_conn
give_conn-counts now pool key conn = elim (Bool-cases (ltb (length (idle_of pool key)) max_idle)) [
  | inl room ↦
      let entry : Idle = record { conn = conn; returned_at = now } in
      (
        λ c.
            rw (give_conn, room)
              (omega (arith, count_pool-set_idle c pool key (entry ∷ idle_of pool key))),
        λ within.
            rw (give_conn, room)
              (set_idle-WithinIdle pool key (entry ∷ idle_of pool key) within
                (omega (arith, ltb→lt _ _ room))),
      )
  | inr full ↦ (
    λ c. rw (give_conn, full) (omega (arith, count_pool-set_idle c pool key (idle_of pool key))),
    λ within.
        rw (give_conn, full)
          (set_idle-WithinIdle pool key (idle_of pool key) within (idle_of-le pool key within)),
  )
]

close_response-counts :
    (now : ℕ) (r : Pooled) (pool : Pool)
    → ((c : ℕ)
        → count_pool c (close_response now r pool).1
            + count_conn c (close_response now r pool).0.conn
          ≤ count_pool c pool + count_conn c r.conn)
      × (WithinIdle pool → WithinIdle (close_response now r pool).1)
unfolding close_response
close_response-counts now r pool = elim (Option-cases r.conn) [
  | inl none_left ↦ (
    λ c. rw (close_response, none_left) (omega (arith, ap (count_conn c) none_left)),
    λ within. rw (close_response, none_left) within,
  )
  | inr (conn, there) ↦ elim (Bool-cases (r.is_closed && not r.will_close)) [
    | inl kept ↦
        let (counts, inside) = give_conn-counts now pool r.key conn in
        (
          λ c. rw (close_response, there, kept) (omega (arith, counts c, ap (count_conn c) there)),
          λ within. rw (close_response, there, kept) (inside within),
        )
    | inr lost ↦ (
      λ c. rw (close_response, there, lost) (omega (arith, ap (count_conn c) there)),
      λ within. rw (close_response, there, lost) within,
    )
  ]
]

step-Once : {v w : World} → Step v w → Once v → Once w
step-Once (pops w key entry pool popped) once c =
    let (counts, _) = pop_idle-counts w.pool key entry pool popped in
    omega (arith, counts c, once c)
step-Once (connects w key) once c = let before = once c in ground arith
step-Once (drops w before after key conn at) once c =
    omega (arith, once c, ap (count_held c) at, count_held-middle c before after key conn)
step-Once (responds w before after key conn is_closed will_close at) once c =
    omega (arith, once c, ap (count_held c) at, count_held-middle c before after key conn)
step-Once (reads w before after r is_closed at) once c = omega (
  arith,
  once c,
  ap (count_responses c) at,
  count_responses-middle c before after r,
  count_responses-middle c before after (record r { is_closed = is_closed }),
)
step-Once (closes w before after r now at) once c =
    let (counts, _) = close_response-counts now r w.pool in
    omega (
      arith,
      once c,
      counts c,
      ap (count_responses c) at,
      count_responses-middle c before after r,
      count_responses-middle c before after (close_response now r w.pool).0,
    )

step-WithinIdle : {v w : World} → Step v w → WithinIdle v.pool → WithinIdle w.pool
step-WithinIdle (pops w key entry pool popped) h =
    let (_, within) = pop_idle-counts w.pool key entry pool popped in within h
step-WithinIdle (connects w key) h = h
step-WithinIdle (drops w before after key conn at) h = h
step-WithinIdle (responds w before after key conn is_closed will_close at) h = h
step-WithinIdle (reads w before after r is_closed at) h = h
step-WithinIdle (closes w before after r now at) h =
    let (_, within) = close_response-counts now r w.pool in within h

reachable-Once : {w : World} → Reachable w → Once w × WithinIdle w.pool
reachable-Once start = (λ c. omega arith, tt)
reachable-Once (next r s) =
    let (once, within) = reachable-Once r in (step-Once s once, step-WithinIdle s within)

-- Whatever the threads do, and however often they close a response, a connection is idle once, or used
-- by one request or one response that is not closed, never two of these; and an origin keeps at most 16
-- idle connections.
pub reachable-exclusive :
    {w : World}
    → Reachable w
    → ((c : ℕ) → count_pool c w.pool + count_held c w.held + count_responses c w.responses ≤ 1)
      × ((key : Key) → length (idle_of w.pool key) ≤ 16)
reachable-exclusive {w} r =
    let (once, within) = reachable-Once r in
    (λ c. let bound = once c in ground arith, λ key. idle_of-le w.pool key within)
