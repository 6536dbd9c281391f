-- ===== src/Tests/Topics.antt =====
-- Tests of the theorems on the bridge's handlers.
use franka_kistar_r_exp_gwb.Common.{
  ◌≡◌, refl, ℕ, zero, suc, ◌<◌, false, List, [], ◌∷◌, arith, for_all, find_first,
}
use Prim.Native.String.{String}
use franka_kistar_r_exp_gwb.Common.Int.{ℤ, pos, negsuc}
use franka_kistar_r_exp_gwb.Double.{nought}
use franka_kistar_r_exp_gwb.Double.Fixed.{Fixed, fin, nan, unit, fixed_double, Fixed-IsIeee}
use franka_kistar_r_exp_gwb.Shm.{arm_dof}
use franka_kistar_r_exp_gwb.Arm.Limits.{IsWithinLimits, validate_waypoint, validate_waypoint_iff}
use franka_kistar_r_exp_gwb.Arm.Plan.{IsEntry}
use franka_kistar_r_exp_gwb.Bridge.Trajectory.{
  Point, JointTrajectory, joint_index, joint_value, time_value, use_positional, resolve,
}
use franka_kistar_r_exp_gwb.Bridge.Trajectory.Names.{Names}

abbrev seven : List Fixed
seven = nought ∷ nought ∷ nought ∷ fin (negsuc 999) ∷ nought ∷ fin (pos unit) ∷ fin (pos 5) ∷ []

-- Too few values.
abbrev grip : List ℤ
grip = pos 100 ∷ negsuc 19 ∷ []

abbrev fast : Fixed
fast = fin (pos 7_000_000_000)

above_nan : (x : Fixed) → fixed_double.lt x nan ≡ false
above_nan nan = refl
above_nan (fin a) = refl

-- The seven names in reverse, behind that of a gripper.
abbrev mixed : List String
mixed =
    "finger" ∷ "fr3_joint7" ∷ "fr3_joint6" ∷ "fr3_joint5" ∷ "fr3_joint4" ∷ "fr3_joint3"
    ∷ "fr3_joint2" ∷ "fr3_joint1" ∷ []

mixed-Names : (j : ℕ) → j < arm_dof → Names mixed j
mixed-Names zero l = (7, omega arith, refl)
mixed-Names (suc zero) l = (6, omega arith, refl)
mixed-Names (suc (suc zero)) l = (5, omega arith, refl)
mixed-Names (suc (suc (suc zero))) l = (4, omega arith, refl)
mixed-Names (suc (suc (suc (suc zero)))) l = (3, omega arith, refl)
mixed-Names (suc (suc (suc (suc (suc zero))))) l = (2, omega arith, refl)
mixed-Names (suc (suc (suc (suc (suc (suc zero)))))) l = (1, omega arith, refl)
mixed-Names (suc (suc (suc (suc (suc (suc (suc j))))))) l = absurd (omega arith)

no-Names : ¬ Names [] 3
no-Names (k, l, e) = omega arith

abbrev pub seconds : ℤ → Point Fixed
seconds n = record {
  positions =
      nought ∷ nought ∷ nought ∷ fin (negsuc 999_999_999) ∷ nought ∷ fin (pos unit) ∷ nought ∷ [];
  sec = n;
  nanosec = 500;
}

-- Two points without names.
abbrev pub message : JointTrajectory Fixed
message = record { joint_names = []; points = seconds (pos 0) ∷ seconds (pos 1) ∷ [] }

first-IsWithinLimits : IsWithinLimits (joint_value message 0)
unfolding validate_waypoint for_all joint_index use_positional resolve find_first
first-IsWithinLimits = (validate_waypoint_iff Fixed-IsIeee (joint_value message 0)).0 refl

pub message-IsEntry : (i : ℕ) → i < 2 → IsEntry (joint_value message) (time_value message) i
message-IsEntry zero l = record {
  pose = first-IsWithinLimits;
  finite = refl;
  from_start = refl;
  later = λ p. absurd (omega arith);
}
message-IsEntry (suc zero) l = record {
  pose = first-IsWithinLimits;
  finite = refl;
  from_start = refl;
  later = λ p. refl;
}
message-IsEntry (suc (suc i)) l = absurd (omega arith)
