-- ===== src/Arm/Robot.antt =====
-- What libfranka shows of the robot, as far as src/franka_right_arm.cpp uses it, and the write of a
-- state into the shared memory.
use franka_kistar_r_exp_gwb.Common.{ℕ, Array, update, copy}
use franka_kistar_r_exp_gwb.Common.Int.{ℤ, sub_ℕ}
use franka_kistar_r_exp_gwb.Double.{Double}
use franka_kistar_r_exp_gwb.Shm.{ShmMsgs, arm_dof}

pub record RobotState (F : Type 0) : Type 0 where
  pub q : Array F
  pub dq : Array F
  pub tau_j : Array F
  pub o_t_ee : Array F

abbrev pub right_arm_index : ℕ
right_arm_index = 0

-- The negative decimal constant -n * 10^-9.
abbrev pub minus : ℕ → ℤ
minus n = sub_ℕ 0 n

module _ {F : Type 0} ⦃d : Double F⦄ where
  -- The loop over the joints that `updateRightArmStateToShm` and the control callback share.
  unfoldable pub write_joints : RobotState F → ShmMsgs F → ShmMsgs F
  unfolding copy
  write_joints state shm =
      let arm = right_arm_index in
      record shm {
        arm_j_pos = update shm.arm_j_pos arm (copy arm_dof state.q (shm.arm_j_pos arm));
        arm_j_vel = update shm.arm_j_vel arm (copy arm_dof state.dq (shm.arm_j_vel arm));
        arm_j_tq = update shm.arm_j_tq arm (copy arm_dof state.tau_j (shm.arm_j_tq arm));
      }

  unfoldable pub update_right_arm_state_to_shm : RobotState F → ShmMsgs F → ShmMsgs F
  unfolding write_joints copy
  update_right_arm_state_to_shm state shm =
      let s = write_joints state shm in
      record s {
        arm_c_pos =
            update s.arm_c_pos right_arm_index (copy 16 state.o_t_ee (s.arm_c_pos right_arm_index));
      }
