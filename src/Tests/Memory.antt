-- ===== src/Tests/Memory.antt =====
-- Tests of the shared memory's theorems.
use franka_kistar_r_exp_gwb.Common.{◌⊎◌, ◌≡◌, refl, true, false, some, none, List, [], ◌∷◌, arith}
use franka_kistar_r_exp_gwb.Double.Fixed.{Fixed, fixed_double}
use franka_kistar_r_exp_gwb.Shm.{ShmMsgs, ArmTrajShm, zero_msgs}
use franka_kistar_r_exp_gwb.Shm.Attach.{delete_shared_memory}
use franka_kistar_r_exp_gwb.Shm.Count.{
  Event, attach, leave, store, run, holders, is_smooth, Counts, IsHeld, run-Counts,
}
use franka_kistar_r_exp_gwb.Shm.Race.{ready, interleave, both_enter, interleave-lost_count}
use franka_kistar_r_exp_gwb.Tests.Fixtures.{demo_buf, traj_of}

-- The bridge attaches, the controller attaches and stores, the bridge leaves, then the controller,
-- whose removal is refused.
abbrev session : List (Event Fixed)
session =
    attach true true
    ∷ attach true true
    ∷ store (λ s. record s { process_num = 77 })
    ∷ leave true
    ∷ leave false
    ∷ []

run-Counts_example :
    Counts (run session none) (holders session 0)
    × ((is_smooth session ≡ false) ⊎ IsHeld (run session none) (holders session 0))
run-Counts_example =
    run-Counts session none 0 (omega arith) (omega arith, (omega arith, tt)) refl tt

abbrev fresh : ShmMsgs Fixed
fresh = zero_msgs

interleave-lost_count_example :
    let r = interleave (true ∷ false ∷ true ∷ true ∷ false ∷ false ∷ []) (both_enter fresh) in
    (r.first ≡ ready)
    × (r.second ≡ ready)
    × (r.shm.process_num ≡ 1)
    × ((delete_shared_memory true (some r.shm)).1 ≡ true)
interleave-lost_count_example = interleave-lost_count fresh refl

abbrev stuck : ArmTrajShm Fixed
stuck = traj_of (demo_buf 2)
