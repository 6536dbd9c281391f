-- ===== src/Arm/Execute.antt =====
-- src/franka_right_arm.cpp: `markTrajectoryDone` and `executeTrajFromShm`. libfranka's control loop
-- is a list of what happens while it runs: it calls the callback with a robot state and the time
-- since the last call, and between two calls another process may write to the shared memory. A list
-- that ends before the callback has finished the motion is an exception of `robot.control`.
use franka_kistar_r_exp_gwb.Common.{
  ℕ, ◌-◌, Bool, true, false, Option, none, some, List, [], ◌∷◌, Array, update, copy,
}
use franka_kistar_r_exp_gwb.Double.{Double, nought}
use franka_kistar_r_exp_gwb.Shm.{
  ShmMsgs, ArmTrajBuf, ArmTrajShm, arm_dof, arm_traj_executing, arm_traj_done,
}
use franka_kistar_r_exp_gwb.Arm.Robot.{RobotState, right_arm_index, write_joints}
use franka_kistar_r_exp_gwb.Arm.Plan.{Plan}
use franka_kistar_r_exp_gwb.Arm.Plan.Race.{load_racing}
use franka_kistar_r_exp_gwb.Arm.Motion.{command}
pub mod Done
pub mod Sent
pub mod Safe
pub mod Defined

pub data Tick (F : Type 0) : Type 0 where
  tick : RobotState F → F → Tick F
  other : (ShmMsgs F → ShmMsgs F) → (ArmTrajShm F → ArmTrajShm F) → Tick F

-- What other processes make of the trajectory segment while it is copied: by the read `k`, and by
-- the end.
pub record Copying (F : Type 0) : Type 0 where
  pub during : ℕ → ArmTrajShm F → ArmTrajShm F
  pub past : ArmTrajShm F → ArmTrajShm F

-- The two segments.
pub record World (F : Type 0) : Type 0 where
  pub shm : ShmMsgs F
  pub traj : ArmTrajShm F

-- The control loop: the time since its start, and the set points sent, the latest first.
pub record Motion (F : Type 0) : Type 0 where
  pub world : World F
  pub elapsed : F
  pub sent : List (F × Array F)

pub data End : Type 0 where
  finished thrown undefined : End

-- How `executeTrajFromShm` ends: with the last pose, by an exception, or in undefined behaviour.
pub data Outcome (F : Type 0) : Type 0 where
  returned : Array F → List (F × Array F) → World F → Outcome F
  raised : List (F × Array F) → World F → Outcome F
  broken : Outcome F

module _ {F : Type 0} ⦃d : Double F⦄ where
  abbrev pub traj_state : World F → ℕ
  traj_state w = (w.traj.arm_traj right_arm_index).state

  -- traj_shm->Arm_traj[arm].state = s
  abbrev pub set_state : ℕ → World F → World F
  set_state s w =
      let buf = w.traj.arm_traj right_arm_index in
      let bufs = update w.traj.arm_traj right_arm_index (record buf { state = s }) in
      record w { traj = record w.traj { arm_traj = bufs } }

  abbrev pub mark_trajectory_done : World F → World F
  mark_trajectory_done = set_state arm_traj_done

  -- The callback up to the set point.
  unfoldable pub on_tick : RobotState F → F → Motion F → Motion F
  on_tick state period m = record m {
    world = record m.world { shm = write_joints state m.world.shm };
    elapsed = d.add m.elapsed period;
  }

  unfoldable pub send : Array F → Motion F → Motion F
  send q m = record m { sent = (m.elapsed, q) ∷ m.sent }

  unfoldable pub interfere :
      (ShmMsgs F → ShmMsgs F) → (ArmTrajShm F → ArmTrajShm F) → Motion F → Motion F
  interfere f g m = record m { world = record { shm = f m.world.shm; traj = g m.world.traj } }

  unfoldable pub run_control : Plan F → List (Tick F) → Motion F → End × Motion F
  run_control p [] m = (thrown, m)
  run_control p (other f g ∷ ts) m = run_control p ts (interfere f g m)
  run_control p (tick state period ∷ ts) m =
      let n = on_tick state period m in
      elim (command p n.elapsed) [
        | none ↦ (undefined, n)
        | some (q, true) ↦ (finished, send q n)
        | some (q, false) ↦ run_control p ts (send q n)
      ]

  -- Behind the control loop: Arm_j_tar follows, so that the point-to-point mode stays quiet. What
  -- other processes write to the buffer behind the store of DONE counts as behind the return: the
  -- stores that are left go to the other segment.
  unfoldable pub conclude : Plan F → End × Motion F → Outcome F
  conclude p (finished, m) =
      let last = p.waypoints (p.len - 1) in
      let w = set_state arm_traj_done m.world in
      let tar = w.shm.arm_j_tar in
      let synced = update tar right_arm_index (copy arm_dof last (tar right_arm_index)) in
      returned last m.sent (record w { shm = record w.shm { arm_j_tar = synced } })
  conclude p (thrown, m) = raised m.sent (mark_trajectory_done m.world)
  conclude p (undefined, m) = broken

  -- The value-initialised array that the early returns give.
  abbrev pub zeros : Array F
  zeros = λ _. nought

  unfoldable pub follow : Option (Plan F) → List (Tick F) → World F → Outcome F
  follow none ts w = returned zeros [] (set_state arm_traj_done w)
  follow (some p) ts w =
      conclude p (run_control p ts (record { world = w; elapsed = nought; sent = [] }))

  -- No other process writes during the copy.
  abbrev pub undisturbed : Copying F
  undisturbed = record { during = λ k s. s; past = λ s. s }

  -- The buffer at each read of the copy.
  abbrev pub copied_from : Copying F → World F → ℕ → ArmTrajBuf F
  copied_from c w k = (c.during k (set_state arm_traj_executing w).traj).arm_traj right_arm_index

  unfoldable pub execute_traj_from_shm : Copying F → List (Tick F) → World F → Outcome F
  execute_traj_from_shm c ts w =
      let v = set_state arm_traj_executing w in
      follow (load_racing (copied_from c w)) ts (record v { traj = c.past v.traj })
