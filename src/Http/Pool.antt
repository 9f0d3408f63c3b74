-- ===== src/Http/Pool.antt =====
-- The idle connections per origin (src/ucloud_sandboxes_sdk/_http.py, `_ConnectionPool`).
-- Connections are numbers; times are in microseconds.
use ucloud_sandboxes_sdk.Prelude.{
  ℕ, ◌-◌, String, Bool, true, false, Option, none, some, List, [], ◌∷◌, ◌==◌, ◌&&◌, not, eqb, ltb,
  length, if◌then◌else◌,
}

pub record Key : Type 0 where
  pub scheme : String
  pub host : String
  pub port : ℕ

abbrev pub same_key : Key → Key → Bool
same_key a b = a.scheme == b.scheme && a.host == b.host && eqb a.port b.port

pub record Idle : Type 0 where
  pub conn : ℕ
  pub returned_at : ℕ

-- `_idle`: each origin's list, its end first.
abbrev pub Pool : Type 0
Pool = List (Key × List Idle)

-- `self._idle.get(key)`, with a missing list as an empty one.
abbrev pub idle_of : Pool → Key → List Idle
idle_of [] key = []
idle_of ((k, idle) ∷ pool) key = if same_key key k then idle else idle_of pool key

abbrev pub set_idle : Pool → Key → List Idle → Pool
set_idle [] key idle = (key, idle) ∷ []
set_idle ((k, old) ∷ pool) key idle =
    let rest = set_idle pool key idle in
    if same_key key k then (k, idle) ∷ pool else (k, old) ∷ rest

abbrev pub idle_seconds : ℕ
idle_seconds = 5000000

abbrev pub max_idle : ℕ
max_idle = 16

-- `now - returned_at < self.idle_seconds and not _dropped(conn)`.
abbrev pub is_fresh : (ℕ → Bool) → ℕ → Idle → Bool
is_fresh dropped now entry = ltb (now - entry.returned_at) idle_seconds && not (dropped entry.conn)

-- The loop of `take` on one origin's list: the connection, the ones that are left, and the ones
-- that are closed.
unfoldable pub take_idle : (ℕ → Bool) → ℕ → List Idle → Option ℕ × List Idle × List ℕ
take_idle dropped now [] = (none, [], [])
take_idle dropped now (entry ∷ idle) =
    let (found, left, closed) = take_idle dropped now idle in
    if is_fresh dropped now entry
    then (some entry.conn, idle, [])
    else (found, left, entry.conn ∷ closed)

-- `_ConnectionPool.take`, without another thread in between.
unfoldable pub take_conn : (ℕ → Bool) → ℕ → Pool → Key → Option ℕ × Pool × List ℕ
take_conn dropped now pool key =
    let (found, left, closed) = take_idle dropped now (idle_of pool key) in
    (found, set_idle pool key left, closed)

-- `_ConnectionPool.give`: the pool, and whether the connection is closed instead.
unfoldable pub give_conn : ℕ → Pool → Key → ℕ → Pool × Bool
give_conn now pool key conn =
    let idle = idle_of pool key in
    if ltb (length idle) max_idle
    then (set_idle pool key (record { conn = conn; returned_at = now } ∷ idle), false)
    else (set_idle pool key idle, true)

-- One pop of `take`, under the lock: an entry and the pool without it.
unfoldable pub pop_idle : Pool → Key → Option (Idle × Pool)
pop_idle pool key = elim (idle_of pool key) [
  | [] ↦ none
  | entry ∷ idle ↦ some (entry, set_idle pool key idle)
]
