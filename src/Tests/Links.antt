-- ===== src/Tests/Links.antt =====
-- Tests of the theorems on the parts together.
use franka_kistar_r_exp_gwb.Common.{ℕ, ◌<◌, ◌≡◌, ◌⊎◌, refl, true, none, some, [], arith}
use franka_kistar_r_exp_gwb.Common.Int.{pos}
use franka_kistar_r_exp_gwb.Double.Fixed.{Fixed, fixed_double, Fixed-IsIeee}
use franka_kistar_r_exp_gwb.Shm.{zero_traj, arm_dof}
use franka_kistar_r_exp_gwb.Arm.Plan.{Plan, IsSound}
use franka_kistar_r_exp_gwb.Arm.Plan.Race.{load_racing}
use franka_kistar_r_exp_gwb.Arm.Execute.{undisturbed, copied_from, execute_traj_from_shm}
use franka_kistar_r_exp_gwb.Arm.Execute.Done.{Returns}
use franka_kistar_r_exp_gwb.Arm.Execute.Sent.{All}
use franka_kistar_r_exp_gwb.Arm.Execute.Safe.{sent_of, IsSafeFor, execute_traj_from_shm_safe}
use franka_kistar_r_exp_gwb.Arm.Thread.{Round, Thread, observe, trajectory_mode, iterate}
use franka_kistar_r_exp_gwb.Bridge.Trajectory.{joint_value, time_value, on_franka_trajectory}
use franka_kistar_r_exp_gwb.System.Copy.{meanwhile, load_racing_mixed}
use franka_kistar_r_exp_gwb.System.Copy.Torn.{overtakes, spliced_q, spliced_t, load_racing_torn}
use franka_kistar_r_exp_gwb.System.Route.{Follows, IsFollowed, topic_to_arm}
use franka_kistar_r_exp_gwb.Tests.Fixtures.{demo_buf, route-IsEntry, home, standing, world_of}
use franka_kistar_r_exp_gwb.Tests.Topics.{message, message-IsEntry}
use franka_kistar_r_exp_gwb.Tests.Motions.{course, world, hurried}

-- The message comes between the reads of the two entries.
load_racing_torn_example :
    (p : Plan Fixed) × (load_racing (meanwhile message (demo_buf 2) (overtakes message 1)) ≡ some p)
    × (p.len ≡ 2)
    × ((i j : ℕ) → i < 2 → j < arm_dof → p.waypoints i j ≡ spliced_q message (demo_buf 2) 1 i j)
    × ((i : ℕ) → i < 2 → p.times i ≡ spliced_t message (demo_buf 2) 1 i)
load_racing_torn_example =
    load_racing_torn Fixed-IsIeee message (demo_buf 2) 2 1 refl (omega arith) (omega arith)
      (omega arith) (λ i _. route-IsEntry 0 i) message-IsEntry (λ _. refl)

abbrev torn : Plan Fixed
torn =
    (load_racing_torn Fixed-IsIeee message (demo_buf 2) 2 1 refl (omega arith) (omega arith)
      (omega arith) (λ i _. route-IsEntry 0 i) message-IsEntry (λ _. refl)).0

load_racing_mixed_example :
    IsSound torn
    × (((demo_buf 2).len ≡ pos torn.len) ⊎ (torn.len ≡ 2))
    × ((i j : ℕ)
        → i < torn.len
        → j < arm_dof
        → (torn.waypoints i j ≡ (demo_buf 2).q i j)
          ⊎ ((i < 2) × (torn.waypoints i j ≡ joint_value message i j)))
    × ((i : ℕ)
        → i < torn.len
        → (torn.times i ≡ (demo_buf 2).t i) ⊎ ((i < 2) × (torn.times i ≡ time_value message i)))
load_racing_mixed_example =
    load_racing_mixed Fixed-IsIeee message (demo_buf 2) (overtakes message 1) torn
      (load_racing_torn Fixed-IsIeee message (demo_buf 2) 2 1 refl (omega arith) (omega arith)
        (omega arith) (λ i _. route-IsEntry 0 i) message-IsEntry (λ _. refl)).1

execute_traj_from_shm_safe_example :
    ((load_racing (copied_from hurried world) ≡ none)
      × (sent_of (execute_traj_from_shm hurried course world) ≡ []))
    ⊎ ((p : Plan Fixed) × (load_racing (copied_from hurried world) ≡ some p)
        × IsSound p
        × All (IsSafeFor p) (sent_of (execute_traj_from_shm hurried course world)))
execute_traj_from_shm_safe_example = execute_traj_from_shm_safe Fixed-IsIeee hurried course world

abbrev taken : Thread Fixed
taken = record {
  world = record (world_of home (demo_buf 0)) { traj = on_franka_trajectory message zero_traj };
  last_target = home;
  motions = [];
}

abbrev busy : Round Fixed
busy = record {
  before = some (standing home);
  copying = undisturbed;
  course = course;
  moves = true;
  after = some (standing home);
}

topic_to_arm_example :
    let o = execute_traj_from_shm undisturbed course (observe (standing home) taken.world) in
    (iterate (fixed_double.of_int (pos 1)) busy taken ≡ trajectory_mode busy [] o)
    × All (Follows message) (sent_of o)
    × Returns (IsFollowed message) o
topic_to_arm_example =
    topic_to_arm Fixed-IsIeee message zero_traj (fixed_double.of_int (pos 1)) busy taken
      (standing home) (omega arith) (omega arith) message-IsEntry refl refl refl
