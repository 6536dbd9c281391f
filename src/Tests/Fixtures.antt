-- ===== src/Tests/Fixtures.antt =====
-- Concrete poses, trajectories and memories that the tests share.
use franka_kistar_r_exp_gwb.Common.{
  ℕ, zero, suc, ◌+◌, ◌*◌, ◌≤◌, ◌<◌, ◌≡◌, refl, none, [], ◌∷◌, Array, arith, get_or, for_all, copy,
}
use franka_kistar_r_exp_gwb.Common.Int.{pos, negsuc}
use franka_kistar_r_exp_gwb.Double.{nought}
use franka_kistar_r_exp_gwb.Double.Fixed.{Fixed, fin, unit, fixed_double, Fixed-IsIeee}
use franka_kistar_r_exp_gwb.Shm.{ArmTrajBuf, ArmTrajShm, zero_msgs, arm_traj_pending}
use franka_kistar_r_exp_gwb.Arm.Robot.{RobotState}
use franka_kistar_r_exp_gwb.Arm.Limits.{IsWithinLimits, validate_waypoint, validate_waypoint_iff}
use franka_kistar_r_exp_gwb.Arm.Plan.{Plan, load, load_from, load_entry, plan_of, IsEntry, IsSound}
use franka_kistar_r_exp_gwb.Arm.Execute.{World}

abbrev pub home : Array Fixed
home j = fin (
    get_or (pos 0 ∷ pos 0 ∷ pos 0 ∷ negsuc 1_499_999_999 ∷ pos 0 ∷ pos 1_500_000_000 ∷ pos 0 ∷ []) j
      (pos 0))

abbrev pub away : Array Fixed
away j = fin (
    get_or
      (pos 500_000_000
        ∷ pos 0
        ∷ pos 0
        ∷ negsuc 999_999_999
        ∷ pos 0
        ∷ pos 2_000_000_000
        ∷ pos 0
        ∷ [])
      j (pos 0))

pub home-IsWithinLimits : IsWithinLimits home
unfolding validate_waypoint for_all
home-IsWithinLimits = (validate_waypoint_iff Fixed-IsIeee home).0 refl

away-IsWithinLimits : IsWithinLimits away
unfolding validate_waypoint for_all
away-IsWithinLimits = (validate_waypoint_iff Fixed-IsIeee away).0 refl

-- From `home` at the start to `away`, with a second between two waypoints.
abbrev pub route : Array (Array Fixed)
route zero = home
route (suc _) = away

abbrev pub clock : ℕ → Array Fixed
clock start i = fin (pos ((i + start) * unit))

route-IsWithinLimits : (i : ℕ) → IsWithinLimits (route i)
route-IsWithinLimits zero = home-IsWithinLimits
route-IsWithinLimits (suc i) = away-IsWithinLimits

pub route-IsEntry : (start i : ℕ) → IsEntry route (clock start) i
route-IsEntry start i = record {
  pose = route-IsWithinLimits i;
  finite = refl;
  from_start = ground arith;
  later = λ p. ground arith;
}

abbrev pub demo : ℕ → ℕ → Plan Fixed
demo start n = record { len = n; waypoints = route; times = clock start }

pub demo-IsSound : (start n : ℕ) → 0 < n → n ≤ 1000 → IsSound (demo start n)
demo-IsSound start n p l = record {
  nonempty = p;
  capped = l;
  entries = λ i _. route-IsEntry start i;
}

abbrev pub demo_buf : ℕ → ArmTrajBuf Fixed
demo_buf state = record { q = route; t = clock 0; len = pos 2; state = state }

-- All joints at zero, which is outside the limits of joint 4.
abbrev pub bad_buf : ArmTrajBuf Fixed
bad_buf = record { q = λ _ _. nought; t = λ _. nought; len = pos 1; state = arm_traj_pending }

pub bad_buf-load : load bad_buf ≡ none
unfolding load load_from load_entry plan_of validate_waypoint for_all copy
bad_buf-load = refl

abbrev pub traj_of : ArmTrajBuf Fixed → ArmTrajShm Fixed
traj_of buf = record { arm_traj = λ _. buf; process_num = 1 }

-- A memory in which the arm's target is `target`.
abbrev pub world_of : Array Fixed → ArmTrajBuf Fixed → World Fixed
world_of target buf = record {
  shm = record zero_msgs { arm_j_tar = λ _. target; arm_speed_factor = λ _. fin (pos unit) };
  traj = traj_of buf;
}

abbrev pub standing : Array Fixed → RobotState Fixed
standing q = record { q = q; dq = λ _. nought; tau_j = λ _. nought; o_t_ee = λ _. nought }
