-- ===== src/Bridge/Publish.antt =====
-- ros2/kistar_hand_bridge/src/kistar_hand_bridge_node.cpp: the messages of the node and
-- `publish_from_shared_memory`. An `int16_t` converts to `float` without rounding.
use Prim.Native.String.{String}
use franka_kistar_r_exp_gwb.Common.{
  ℕ, ◌+◌, List, [], ◌∷◌, Option, none, some, Array, update, for_range, ltb, if◌then◌else◌,
}
use franka_kistar_r_exp_gwb.Common.Int.{ℤ, pos}
use franka_kistar_r_exp_gwb.Double.{Double, nought}
use franka_kistar_r_exp_gwb.Shm.{
  ShmMsgs, hand_dof, kinesthetic_sensor_num, kinesthetic_sensor_dof, tactile_sensor_num, arm_dof,
}
use franka_kistar_r_exp_gwb.Bridge.Layout.{
  Dimension, Vector, MultiArray, make_message_with_layout, make_message_with_layout_64,
}
pub mod Contents

-- The members `…_msg_`.
pub record Messages (F : Type 0) : Type 0 where
  pub joint_position : MultiArray F
  pub joint_kinesthetic : MultiArray F
  pub joint_tactile : MultiArray F
  pub hand_mode : ℕ
  pub hand_servo_on : ℕ
  pub hand_target : MultiArray ℤ
  pub franka_joint_position : MultiArray F
  pub franka_joint_target : MultiArray F
  pub franka_joint_velocity : MultiArray F
  pub franka_joint_torque : MultiArray F
  pub franka_speed : F

pub data Payload (F : Type 0) : Type 0 where
  reals : MultiArray F → Payload F
  ints : MultiArray ℤ → Payload F
  number : ℕ → Payload F
  real : F → Payload F

-- msg.data[i] = v
abbrev pub set_data : {A : Type 0} → ℕ → A → MultiArray A → MultiArray A
set_data i v msg = record msg {
  data' = record { size = msg.data'.size; cells = update msg.data'.cells i v };
}

-- std::vector::resize on an array of integers
abbrev pub resize : ℕ → MultiArray ℤ → MultiArray ℤ
resize n msg = record msg {
  data' = record {
    size = n;
    cells = λ k. if ltb k msg.data'.size then msg.data'.cells k else pos 0;
  };
}

module _ {F : Type 0} ⦃d : Double F⦄ where
  -- The initialisers of the constructor.
  unfoldable pub initial_messages : Messages F
  initial_messages = record {
    joint_position = make_message_with_layout (("joint", hand_dof) ∷ []);
    joint_kinesthetic =
        make_message_with_layout
          (("finger", kinesthetic_sensor_num) ∷ ("axis", kinesthetic_sensor_dof) ∷ []);
    joint_tactile = make_message_with_layout (("taxel", tactile_sensor_num) ∷ []);
    hand_mode = 0;
    hand_servo_on = 0;
    hand_target = record {
      dim = [];
      data_offset = 0;
      data' = record { size = 0; cells = λ _. pos 0 };
    };
    franka_joint_position = make_message_with_layout_64 (("joint", arm_dof) ∷ []);
    franka_joint_target = make_message_with_layout_64 (("joint", arm_dof) ∷ []);
    franka_joint_velocity = make_message_with_layout_64 (("joint", arm_dof) ∷ []);
    franka_joint_torque = make_message_with_layout_64 (("joint", arm_dof) ∷ []);
    franka_speed = nought;
  }

  -- The loop over the joints of the hand.
  abbrev hand_joint : ShmMsgs F → ℕ → Messages F → Messages F
  hand_joint shm i m = record m {
    joint_position = set_data i (d.of_int (shm.j_pos 0 i)) m.joint_position;
    hand_target = set_data i (shm.j_tar 0 i) m.hand_target;
  }

  -- The inner loop of the kinesthetic sensors, with `kin_index`.
  abbrev kinesthetic : ShmMsgs F → ℕ → ℕ → ℕ × MultiArray F → ℕ × MultiArray F
  kinesthetic shm finger axis (kin_index, msg) =
      (kin_index + 1, set_data kin_index (d.of_int (shm.j_kin 0 finger axis)) msg)

  abbrev taxel : ShmMsgs F → ℕ → MultiArray F → MultiArray F
  taxel shm i msg = set_data i (d.of_int (shm.j_tac 0 i)) msg

  -- The loop over the joints of the arm.
  abbrev arm_joint : ShmMsgs F → ℕ → Messages F → Messages F
  arm_joint shm i m = record m {
    franka_joint_position = set_data i (shm.arm_j_pos 0 i) m.franka_joint_position;
    franka_joint_target = set_data i (shm.arm_j_tar 0 i) m.franka_joint_target;
    franka_joint_velocity = set_data i (shm.arm_j_vel 0 i) m.franka_joint_velocity;
    franka_joint_torque = set_data i (shm.arm_j_tq 0 i) m.franka_joint_torque;
  }

  unfoldable pub fill_messages : ShmMsgs F → Messages F → Messages F
  unfolding for_range
  fill_messages shm m =
      let n : Messages F = record m {
        hand_mode = shm.hand_mode 0;
        hand_servo_on = shm.servo_on 0;
        hand_target = resize hand_dof m.hand_target;
        franka_speed = shm.arm_speed_factor 0;
      } in
      let o : Messages F = for_range n.joint_position.data'.size 0 (hand_joint shm) n in
      let kin : ℕ × MultiArray F =
        for_range kinesthetic_sensor_num 0
          (λ finger s. for_range kinesthetic_sensor_dof 0 (kinesthetic shm finger) s)
          (0, o.joint_kinesthetic) in
      let p : Messages F = record o {
        joint_kinesthetic = kin.1;
        joint_tactile = for_range o.joint_tactile.data'.size 0 (taxel shm) o.joint_tactile;
      } in
      for_range p.franka_joint_position.data'.size 0 (arm_joint shm) p

  -- The topics and what goes to each, in the order of the calls of `publish`.
  abbrev pub publications : Messages F → List (String × Payload F)
  publications m =
      ("/hand/joint_position", reals m.joint_position)
      ∷ ("/hand/joint_kinesthetic", reals m.joint_kinesthetic)
      ∷ ("/hand/joint_tactile", reals m.joint_tactile)
      ∷ ("/hand/hand_mode", number m.hand_mode)
      ∷ ("/hand/servo_on", number m.hand_servo_on)
      ∷ ("/hand/joint_target", ints m.hand_target)
      ∷ ("/franka/joint_position", reals m.franka_joint_position)
      ∷ ("/franka/joint_target", reals m.franka_joint_target)
      ∷ ("/franka/joint_velocity", reals m.franka_joint_velocity)
      ∷ ("/franka/joint_torque", reals m.franka_joint_torque)
      ∷ ("/franka/speed_factor", real m.franka_speed)
      ∷ []

  -- `none` is a null pointer.
  unfoldable pub publish_from_shared_memory :
      Option (ShmMsgs F) → Messages F → Messages F × List (String × Payload F)
  unfolding fill_messages
  publish_from_shared_memory none m = (m, [])
  publish_from_shared_memory (some shm) m = let n = fill_messages shm m in (n, publications n)

  -- The ticks of the timer, each with what the memory then holds.
  unfoldable pub publish_all :
      List (ShmMsgs F) → Messages F → Messages F × List (List (String × Payload F))
  publish_all [] m = (m, [])
  publish_all (shm ∷ shms) m =
      let (n, sent) = publish_from_shared_memory (some shm) m in
      let (o, rest) = publish_all shms n in (o, sent ∷ rest)
