-- ===== src/Shm/Defs.antt =====
-- The structs and constants of inc/shm.h. An array is a function of its index. An integer field
-- that is only stored and compared is its number; `int16_t` values are integers, and the counter
-- `process_num` is the bit pattern of an `int`, below 2 ^ 32.
use franka_kistar_r_exp_gwb.Common.{ℕ, Array}
use franka_kistar_r_exp_gwb.Common.Int.{ℤ, pos}
use franka_kistar_r_exp_gwb.Double.{Double, nought}

abbrev pub hand_num : ℕ
hand_num = 1

abbrev pub hand_dof : ℕ
hand_dof = 16

abbrev pub kinesthetic_sensor_num : ℕ
kinesthetic_sensor_num = 4

abbrev pub kinesthetic_sensor_dof : ℕ
kinesthetic_sensor_dof = 3

abbrev pub tactile_sensor_num : ℕ
tactile_sensor_num = 60

abbrev pub finger_num : ℕ
finger_num = 4

abbrev pub cartesian_dof : ℕ
cartesian_dof = 3

abbrev pub quaternion_dof : ℕ
quaternion_dof = 4

abbrev pub arm_num : ℕ
arm_num = 1

abbrev pub arm_dof : ℕ
arm_dof = 7

abbrev pub arm_traj_max_pts : ℕ
arm_traj_max_pts = 1000

-- The states of a trajectory buffer.
abbrev pub arm_traj_idle : ℕ
arm_traj_idle = 0

abbrev pub arm_traj_pending : ℕ
arm_traj_pending = 1

abbrev pub arm_traj_executing : ℕ
arm_traj_executing = 2

abbrev pub arm_traj_done : ℕ
arm_traj_done = 3

pub record ArmTrajBuf (F : Type 0) : Type 0 where
  pub q : Array (Array F)
  pub t : Array F
  pub len : ℤ
  pub state : ℕ

pub record ArmTrajShm (F : Type 0) : Type 0 where
  pub arm_traj : Array (ArmTrajBuf F)
  pub process_num : ℕ

-- A `float` is the double of the same value.
pub record ShmMsgs (F : Type 0) : Type 0 where
  pub hand_mode : Array ℕ
  pub servo_on : Array ℕ
  pub j_pos : Array (Array ℤ)
  pub j_tar : Array (Array ℤ)
  pub j_cur : Array (Array ℤ)
  pub j_kin : Array (Array (Array ℤ))
  pub j_tac : Array (Array ℤ)
  pub tip_pos : Array (Array (Array F))
  pub tip_quat : Array (Array (Array F))
  pub arm_j_pos : Array (Array F)
  pub arm_j_tar : Array (Array F)
  pub arm_j_vel : Array (Array F)
  pub arm_c_pos : Array (Array F)
  pub arm_j_tq : Array (Array F)
  pub arm_speed_factor : Array F
  pub g_pos : Array ℤ
  pub g_tac : Array (Array ℤ)
  pub process_num : ℕ

module _ {F : Type 0} ⦃d : Double F⦄ where
  -- What `memset(…, 0, sizeof …)` leaves: every number is zero.
  abbrev pub zero_msgs : ShmMsgs F
  zero_msgs = record {
    hand_mode = λ _. 0;
    servo_on = λ _. 0;
    j_pos = λ _ _. pos 0;
    j_tar = λ _ _. pos 0;
    j_cur = λ _ _. pos 0;
    j_kin = λ _ _ _. pos 0;
    j_tac = λ _ _. pos 0;
    tip_pos = λ _ _ _. nought;
    tip_quat = λ _ _ _. nought;
    arm_j_pos = λ _ _. nought;
    arm_j_tar = λ _ _. nought;
    arm_j_vel = λ _ _. nought;
    arm_c_pos = λ _ _. nought;
    arm_j_tq = λ _ _. nought;
    arm_speed_factor = λ _. nought;
    g_pos = λ _. pos 0;
    g_tac = λ _ _. pos 0;
    process_num = 0;
  }

  abbrev pub zero_buf : ArmTrajBuf F
  zero_buf = record { q = λ _ _. nought; t = λ _. nought; len = pos 0; state = 0 }

  abbrev pub zero_traj : ArmTrajShm F
  zero_traj = record { arm_traj = λ _. zero_buf; process_num = 0 }
