-- ===== src/Bridge/Node.antt =====
-- ros2/kistar_hand_bridge/src/kistar_hand_bridge_node.cpp: the life of the node. What the kernel
-- answers for a segment are two arguments, as in Shm/Attach, and so is what the segments hold.
use franka_kistar_r_exp_gwb.Common.{
  ℕ, ◌+◌, ◌-◌, ◌%◌, ◌^◌, ◌<◌, ◌≡◌, refl, Bool, true, false, Option, none, some, arith, ◌==◌,
  if◌then◌else◌,
}
use franka_kistar_r_exp_gwb.Double.{Double, nought, one}
use franka_kistar_r_exp_gwb.Shm.{ShmMsgs, ArmTrajShm}
use franka_kistar_r_exp_gwb.Shm.Attach.{
  init_shm, delete_shared_memory, init_arm_traj_shm, delete_arm_traj_shared_memory,
}
use franka_kistar_r_exp_gwb.Bridge.Publish.{Messages, initial_messages}
pub mod Life
pub mod Inbound

-- Both segments.
pub record Memory (F : Type 0) : Type 0 where
  pub msgs : ShmMsgs F
  pub traj : ArmTrajShm F

-- What shmget, shmat and, if the removal is asked for, shmctl answer for each.
pub record Kernel : Type 0 where
  pub got : Bool
  pub attached : Bool
  pub traj_got : Bool
  pub traj_attached : Bool
  pub removable : Bool
  pub traj_removable : Bool

-- A node that has started holds both segments; `period` is that of its timer in seconds.
pub record Node (F : Type 0) : Type 0 where
  pub messages : Messages F
  pub period : F

-- The constructor throws, or the process exits in `init_shm` or `init_arm_traj_shm`, or the node
-- is there; with the memory that is left.
pub data Start (F : Type 0) : Type 0 where
  thrown : Memory F → Start F
  exited : Memory F → Start F
  started : Node F → Memory F → Start F

module _ {F : Type 0} ⦃d : Double F⦄ where
  abbrev start_traj : F → Kernel → ShmMsgs F → ArmTrajShm F → Option (ArmTrajShm F) → Start F
  start_traj rate k msgs old none = exited (record { msgs = msgs; traj = old })
  start_traj rate k msgs old (some traj) =
      started (record { messages = initial_messages; period = d.div one rate })
        (record { msgs = msgs; traj = traj })

  abbrev start_msgs : F → Kernel → Memory F → Option (ShmMsgs F) → Start F
  start_msgs rate k w none = exited w
  start_msgs rate k w (some msgs) =
      start_traj rate k msgs w.traj (init_arm_traj_shm k.traj_got k.traj_attached w.traj)

  -- The constructor, with the parameter `publish_rate_hz`.
  unfoldable pub construct : F → Kernel → Memory F → Start F
  construct publish_rate_hz k w =
      if d.le publish_rate_hz nought
      then thrown w
      else start_msgs publish_rate_hz k w (init_shm k.got k.attached w.msgs)

  -- The destructor of a node that has started: the contents of the segments that still exist.
  unfoldable pub destroy : Kernel → Memory F → Option (ShmMsgs F) × Option (ArmTrajShm F)
  destroy k w =
      let traj = delete_arm_traj_shared_memory k.traj_removable (some w.traj) in
      let msgs = delete_shared_memory k.removable (some w.msgs) in
      (if msgs.1 then none else msgs.0, if traj.1 then none else traj.0)

  -- What `main` returns, or `none` where the process exits on its way; and the segments behind it.
  -- `spin` is what happens to the memory while the node is there, the other processes included;
  -- `returns` says whether `rclcpp::spin` returns: else it throws, and the node is destroyed on the
  -- way out.
  abbrev finish :
      (Memory F → Memory F)
      → Bool
      → Kernel
      → Start F
      → Option ℕ × (Option (ShmMsgs F) × Option (ArmTrajShm F))
  finish spin returns k (thrown w) = (some 1, (some w.msgs, some w.traj))
  finish spin returns k (exited w) = (none, (some w.msgs, some w.traj))
  finish spin returns k (started node w) = (some (if returns then 0 else 1), destroy k (spin w))

  unfoldable pub main :
      (Memory F → Memory F)
      → Bool
      → F
      → Kernel
      → Memory F
      → Option ℕ × (Option (ShmMsgs F) × Option (ArmTrajShm F))
  main spin returns publish_rate_hz k w = finish spin returns k (construct publish_rate_hz k w)
