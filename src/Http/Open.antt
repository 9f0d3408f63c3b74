-- ===== src/Http/Open.antt =====
-- Opening a request on a connection of the pool, and closing its response
-- (src/ucloud_sandboxes_sdk/_http.py: `open_reusing`, `_PooledResponse.close`). Requests through a
-- proxy or with another scheme go to urllib and are not modelled.
use ucloud_sandboxes_sdk.Prelude.{
  ℕ, zero, suc, String, Bool, true, false, Option, none, some, List, [], ◌∷◌, ◌++◌, ◌==◌, ◌&&◌,
  ◌||◌, leb, ltb, not, if◌then◌else◌,
}
use ucloud_sandboxes_sdk.Http.Pool.{Key, Pool, take_conn, give_conn}

-- What one request on a connection comes to. `lost` is RemoteDisconnected, ConnectionResetError,
-- BrokenPipeError or URLError; `failed` is any other exception.
pub data Received : Type 0 where
  responded : ℕ → Received
  lost failed : Received

pub data Opened : Type 0 where
  -- a response, or an HTTPError with it, on a connection
  response : ℕ → ℕ → Opened
  http_error : ℕ → ℕ → Opened
  connect_failed lost_connection other_error : Opened
  no_fuel : Opened

-- A request that was put on a connection.
pub record Try : Type 0 where
  pub conn : ℕ
  pub reused : Bool

-- What the network does: for each attempt the time, which idle connections are dropped, the new
-- connection (none where connecting fails), and the reply on the connection.
pub record Net : Type 0 where
  pub now : ℕ → ℕ
  pub dropped : ℕ → ℕ → Bool
  pub connect : ℕ → Option ℕ
  pub reply : ℕ → Received

abbrev pub is_read : String → Bool
is_read method = method == "GET" || method == "HEAD"

pub record OpenResult : Type 0 where
  pub opened : Opened
  pub pool : Pool
  pub closed : List ℕ
  pub tries : List Try

abbrev ended : Opened → Pool → List ℕ → List Try → OpenResult
ended opened pool closed tries = record {
  opened = opened;
  pool = pool;
  closed = closed;
  tries = tries;
}

abbrev pub of_status : ℕ → ℕ → Opened
of_status conn status =
    if leb 200 status && ltb status 300 then response conn status else http_error conn status

module _ (net : Net) (key : Key) (method : String) where
  -- The reply on a connection; `rest` is the call of `open_reusing` by itself.
  unfoldable pub after_reply : Received → ℕ → Bool → Pool → List ℕ → OpenResult → OpenResult
  after_reply (responded status) conn reused pool closed rest =
      ended (of_status conn status) pool closed (record { conn = conn; reused = reused } ∷ [])
  after_reply failed conn reused pool closed rest =
      ended other_error pool (conn ∷ closed) (record { conn = conn; reused = reused } ∷ [])
  after_reply lost conn reused pool closed rest =
      if reused && is_read method
      then record rest { tries = record { conn = conn; reused = reused } ∷ rest.tries }
      else ended lost_connection pool (conn ∷ closed) (record { conn = conn; reused = reused } ∷ [])

  -- A new connection. `method` is sent on it once.
  unfoldable pub on_new : ℕ → Pool → List ℕ → OpenResult
  unfolding after_reply
  on_new number pool closed = elim (net.connect number) [
    | none ↦ ended connect_failed pool closed []
    | some conn ↦
        after_reply (net.reply number) conn false pool closed (ended no_fuel pool closed [])
  ]

  -- With the connection that `take` found, and the pool and the closed ones that it leaves.
  unfoldable pub on_found : ℕ → Option ℕ → Pool → List ℕ → (ℕ → OpenResult) → OpenResult
  unfolding on_new after_reply
  on_found number none pool closed again = on_new number pool closed
  on_found number (some conn) pool closed again =
      after_reply (net.reply number) conn true pool closed (again conn)

  -- `open_reusing`, by fuel, for the attempts from a number on.
  unfoldable pub open_reusing : ℕ → ℕ → Pool → List ℕ → OpenResult
  open_reusing zero number pool closed = ended no_fuel pool closed []
  open_reusing (suc fuel) number pool closed =
      let taken = take_conn (net.dropped number) (net.now number) pool key in
      let stale = taken.2 ++ closed in
      on_found number taken.0 taken.1 stale
        λ conn. open_reusing fuel (suc number) taken.1 (conn ∷ stale)

-- `_PooledResponse`: its connection until it is closed, whether its body is read to the end, and
-- whether the server closes the connection after it.
pub record Pooled : Type 0 where
  pub key : Key
  pub conn : Option ℕ
  pub is_closed : Bool
  pub will_close : Bool

abbrev hand_back : Pooled → ℕ → Pool × Bool → Pooled × Pool × List ℕ
hand_back r conn (pool, closes) = (record r { conn = none }, pool, if closes then conn ∷ [] else [])

-- `close`: the response, the pool, and the connections that it closes.
unfoldable pub close_response : ℕ → Pooled → Pool → Pooled × Pool × List ℕ
close_response now r pool = elim r.conn [
  | none ↦ (r, pool, [])
  | some conn ↦
      if r.is_closed && not r.will_close
      then hand_back r conn (give_conn now pool r.key conn)
      else (record r { conn = none; is_closed = true }, pool, conn ∷ [])
]
