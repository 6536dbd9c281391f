-- ===== src/Bridge/Node/Inbound.antt =====
-- ros2/kistar_hand_bridge/src/kistar_hand_bridge_node.cpp: the subscriptions, and what messages do
-- to a node that has started.
use Prim.Native.String.{String}
use franka_kistar_r_exp_gwb.Common.{◌≡◌, refl, ◌∙◌, List, [], ◌∷◌, arith}
use franka_kistar_r_exp_gwb.Common.Int.{ℤ}
use franka_kistar_r_exp_gwb.Double.{Double}
use franka_kistar_r_exp_gwb.Bridge.Targets.{
  on_franka_target, on_franka_speed, on_hand_target, on_hand_mode, on_hand_servo_on,
}
use franka_kistar_r_exp_gwb.Bridge.Trajectory.{JointTrajectory, on_franka_trajectory}
use franka_kistar_r_exp_gwb.Bridge.Node.{Memory}

-- A message on one of the subscribed topics.
pub data Inbound (F : Type 0) : Type 0 where
  franka_target : List F → Inbound F
  franka_speed : F → Inbound F
  hand_target : List ℤ → Inbound F
  hand_mode : ℤ → Inbound F
  hand_servo_on : ℤ → Inbound F
  franka_trajectory : JointTrajectory F → Inbound F

abbrev pub topic : {F : Type 0} → Inbound F → String
topic (franka_target data') = "/franka/target_joint"
topic (franka_speed data') = "/franka/target_speed_factor"
topic (hand_target data') = "/hand/target_joint"
topic (hand_mode data') = "/hand/target_mode"
topic (hand_servo_on data') = "/hand/target_servo_on"
topic (franka_trajectory msg) = "/franka/target_trajectory"

module _ {F : Type 0} ⦃d : Double F⦄ where
  -- The handler that is bound to the topic.
  unfoldable pub deliver : Inbound F → Memory F → Memory F
  deliver (franka_target data') w = record w { msgs = on_franka_target data' w.msgs }
  deliver (franka_speed data') w = record w { msgs = on_franka_speed data' w.msgs }
  deliver (hand_target data') w = record w { msgs = on_hand_target data' w.msgs }
  deliver (hand_mode data') w = record w { msgs = on_hand_mode data' w.msgs }
  deliver (hand_servo_on data') w = record w { msgs = on_hand_servo_on data' w.msgs }
  deliver (franka_trajectory msg) w = record w { traj = on_franka_trajectory msg w.traj }

  unfoldable pub deliver_all : List (Inbound F) → Memory F → Memory F
  deliver_all [] w = w
  deliver_all (m ∷ ms) w = deliver_all ms (deliver m w)

  deliver_count :
      (m : Inbound F) (w : Memory F)
      → ((deliver m w).msgs.process_num ≡ w.msgs.process_num)
        × ((deliver m w).traj.process_num ≡ w.traj.process_num)
  unfolding deliver on_franka_target on_franka_speed on_hand_target on_hand_mode on_hand_servo_on
      on_franka_trajectory
  deliver_count (franka_target data') w = ground arith
  deliver_count (franka_speed data') w = (refl, refl)
  deliver_count (hand_target data') w = ground arith
  deliver_count (hand_mode data') w = (refl, refl)
  deliver_count (hand_servo_on data') w = (refl, refl)
  deliver_count (franka_trajectory msg) w = ground arith

  -- Messages leave the counters of both segments as they are.
  pub deliver_all_count :
      (ms : List (Inbound F)) (w : Memory F)
      → let v = deliver_all ms w in
        (v.msgs.process_num ≡ w.msgs.process_num) × (v.traj.process_num ≡ w.traj.process_num)
  unfolding deliver_all
  deliver_all_count [] w = (refl, refl)
  deliver_all_count (m ∷ ms) w =
      let (a, b) = deliver_count m w in
      let (x, y) = deliver_all_count ms (deliver m w) in (x ∙ a, y ∙ b)
