-- ===== src/Examples/Https.antt =====
-- A response that arrives in two chunks, and connections that are kept and reused.
use ucloud_sandboxes_sdk.Prelude.{
  ℕ, zero, suc, ◌+◌, ◌≤◌, true, false, Option, none, some, [], ◌∷◌, length, ◌≡◌, ◌≢◌, refl, arith,
}
use ucloud_sandboxes_sdk.Http.Read.{read_sync_response, read_async_response, chunked}
use ucloud_sandboxes_sdk.Http.Chunks.{read_async-read_sync}
use ucloud_sandboxes_sdk.Http.Pool.{Key, idle_of, give_conn}
use ucloud_sandboxes_sdk.Http.Reach.{
  World, Step, Reachable, count_pool, count_held, count_responses, reachable-exclusive,
}
use ucloud_sandboxes_sdk.Http.Open.{
  Pooled, close_response, Net, responded, lost, no_fuel, is_read, open_reusing,
}
use ucloud_sandboxes_sdk.Http.Once.{open_reusing_once}
use ucloud_sandboxes_sdk.Examples.Values.{python}

read_async-read_sync_example :
    read_async_response python [] (chunked λ k. 1) (7 ∷ 8 ∷ 9 ∷ []) 4 6
    ≡ read_sync_response python [] true (7 ∷ 8 ∷ 9 ∷ []) 4
read_async-read_sync_example =
    read_async-read_sync python [] (λ k. 1) true (7 ∷ 8 ∷ 9 ∷ []) 4 6 (omega arith)

abbrev gateway_key : Key
gateway_key = record { scheme = "https"; host = "h"; port = 443 }

abbrev response_of : Option ℕ → Pooled
response_of conn = record { key = gateway_key; conn = conn; is_closed = true; will_close = false }

-- Two connections are opened, and the first is given back by its response.
abbrev world : World
world = record {
  pool = (gateway_key, record { conn = 0; returned_at = 5 } ∷ []) ∷ [];
  held = (gateway_key, 1) ∷ [];
  responses = response_of none ∷ [];
  opened = 2;
}

responded_once : Reachable (record {
  pool = [];
  held = (gateway_key, 1) ∷ [];
  responses = response_of (some 0) ∷ [];
  opened = 2;
})
responded_once =
    Reachable.next
      (Reachable.next (Reachable.next Reachable.start (Step.connects _ gateway_key))
        (Step.connects _ gateway_key))
      (Step.responds _ ((gateway_key, 1) ∷ []) [] gateway_key 0 true false refl)

reaches : Reachable world
unfolding give_conn close_response
reaches = Reachable.next responded_once (Step.closes _ [] [] (response_of (some 0)) 5 refl)

reachable-exclusive_example :
    ((c : ℕ)
      → count_pool c world.pool + count_held c world.held + count_responses c world.responses ≤ 1)
    × ((key : Key) → length (idle_of world.pool key) ≤ 16)
reachable-exclusive_example = reachable-exclusive reaches

-- The connection that is kept is lost, and a new one is answered.
abbrev net : Net
net = record {
  now = λ k. 10;
  dropped = λ k c. false;
  connect = λ k. some 7;
  reply = λ k. elim k [ zero ↦ lost | suc _ ↦ responded 200 ];
}

open_reusing_once_example :
    let r = open_reusing net gateway_key "GET" 2 0 world.pool [] in
    (r.opened ≢ no_fuel)
    × (length r.tries ≤ suc (length (idle_of world.pool gateway_key)))
    × (is_read "GET" ≡ false → length r.tries ≤ 1)
open_reusing_once_example = open_reusing_once net gateway_key "GET" 2 0 world.pool [] (omega arith)
