-- ===== src/Bridge/Trajectory.antt =====
-- ros2/kistar_hand_bridge/src/kistar_hand_bridge_node.cpp: `on_franka_trajectory`, over an attached
-- segment. The conversion of the number of points to `int` keeps it, since a message is far
-- smaller than 2 ^ 31 points.
use Prim.Native.String.{String}
use text.Mathlib.Text.{◌==◌ as str_eq}
use franka_kistar_r_exp_gwb.Common.{
  ℕ, Bool, true, false, not, ◌||◌, Option, none, some, List, [], ◌∷◌, Array, update, copy,
  for_range, for_all, find_first, length, get_or, ltb, leb, if◌then◌else◌,
}
use franka_kistar_r_exp_gwb.Common.Int.{ℤ, pos}
use franka_kistar_r_exp_gwb.Double.{Double, nought}
use franka_kistar_r_exp_gwb.Shm.{
  ArmTrajBuf, ArmTrajShm, arm_dof, arm_traj_max_pts, arm_traj_pending,
}
pub mod Stores
pub mod Names
pub mod Buffer

-- trajectory_msgs/JointTrajectory
pub record Point (F : Type 0) : Type 0 where
  pub positions : List F
  pub sec : ℤ
  pub nanosec : ℕ

pub record JointTrajectory (F : Type 0) : Type 0 where
  pub joint_names : List String
  pub points : List (Point F)

abbrev pub joint_order : List String
joint_order =
    "fr3_joint1" ∷ "fr3_joint2" ∷ "fr3_joint3" ∷ "fr3_joint4" ∷ "fr3_joint5" ∷ "fr3_joint6"
    ∷ "fr3_joint7" ∷ []

-- msg->joint_names[k] == kJointOrder[j]
abbrev pub is_joint : List String → ℕ → ℕ → Bool
is_joint names j k = str_eq (get_or names k "") (get_or joint_order j "")

-- `idx[j]` behind the search by name; `none` is -1.
unfoldable pub resolve : List String → ℕ → Option ℕ
resolve names j = find_first (length names) 0 (is_joint names j)

abbrev pub is_resolved : Option ℕ → Bool
is_resolved none = false
is_resolved (some k) = true

unfoldable pub use_positional : List String → Bool
use_positional names = not (for_all arm_dof 0 (λ j. is_resolved (resolve names j)))

unfoldable pub joint_index : List String → ℕ → ℕ
joint_index names j =
    if use_positional names then j else elim (resolve names j) [ none ↦ j | some k ↦ k ]

module _ {F : Type 0} ⦃d : Double F⦄ where
  abbrev pub no_point : Point F
  no_point = record { positions = []; sec = pos 0; nanosec = 0 }

  -- The value written to q[i][j]: a joint that the point does not give is 0.0.
  abbrev pub joint_value : JointTrajectory F → ℕ → ℕ → F
  joint_value msg i j =
      let pt = get_or msg.points i no_point in
      let src = joint_index msg.joint_names j in
      if ltb src (length pt.positions) then get_or pt.positions src nought else nought

  -- The value written to t[i].
  abbrev pub time_value : JointTrajectory F → ℕ → F
  time_value msg i =
      let pt = get_or msg.points i no_point in
      d.add (d.of_int pt.sec) (d.mul (d.of_int (pos pt.nanosec)) (d.of_nano (pos 1)))

  unfoldable pub write_point : JointTrajectory F → ℕ → ArmTrajBuf F → ArmTrajBuf F
  write_point msg i buf = record buf {
    q = update buf.q i (copy arm_dof (joint_value msg i) (buf.q i));
    t = update buf.t i (time_value msg i);
  }

  unfoldable pub write_trajectory : JointTrajectory F → ArmTrajBuf F → ArmTrajBuf F
  write_trajectory msg buf =
      let n = length msg.points in
      let written = for_range n 0 (write_point msg) (record buf { len = pos n }) in
      record written { state = arm_traj_pending }

  unfoldable pub on_franka_trajectory : JointTrajectory F → ArmTrajShm F → ArmTrajShm F
  on_franka_trajectory msg shm =
      let n = length msg.points in
      if leb n 0 || ltb arm_traj_max_pts n
      then shm
      else record shm { arm_traj = update shm.arm_traj 0 (write_trajectory msg (shm.arm_traj 0)) }
