-- ===== src/Examples/Admissions.antt =====
-- Two tickets at a budget of one.
use ucloud_sandboxes_sdk.Prelude.{◌+◌, [], ◌∷◌, length, ◌≡◌, ◌⊎◌, refl}
use ucloud_sandboxes_sdk.Admission.Sync as Sync
use ucloud_sandboxes_sdk.Admission.Sync.{
  World, new_budget, enter, may_go, remove, try_acquire, first_world,
}
use ucloud_sandboxes_sdk.Admission.Fairness.{Within, admission-InOrder}
use ucloud_sandboxes_sdk.Admission.Async as Async
use ucloud_sandboxes_sdk.Admission.Capacity.{waiting, async_admission_sound}

-- Tickets 1 and 2 came, and 1 was admitted.
abbrev world : World
world = record {
  budget = record { available = 0; waiters = 2 ∷ [] };
  came = 1 ∷ 2 ∷ [];
  admitted = 1 ∷ [];
  held = 1;
}

world_reached : Sync.Reachable 1 world
unfolding first_world new_budget enter may_go remove try_acquire
world_reached =
    Sync.after (Sync.after (Sync.after Sync.at_first (Sync.comes 1)) (Sync.comes 2))
      (Sync.admits 1 (record { available = 0; waiters = 2 ∷ [] }) refl)

admission-InOrder_example : Within (1 ∷ 2 ∷ []) (1 ∷ 2 ∷ [])
admission-InOrder_example = admission-InOrder {capacity = 1} {w = world} world_reached

unfoldable two_futures : Async.Budget
two_futures = Async.begin_acquire 2 (Async.begin_acquire 1 (Async.new_budget 1))

two_reached : Async.Reachable 1 two_futures
unfolding two_futures
two_reached = Async.after (Async.after Async.at_first (Async.begins 1)) (Async.begins 2)

async_admission_sound_example :
    (two_futures.available + length two_futures.granted + two_futures.held ≡ 1)
    × ((two_futures.available ≡ 0) ⊎ (waiting two_futures.waiters ≡ []))
async_admission_sound_example = async_admission_sound two_reached
