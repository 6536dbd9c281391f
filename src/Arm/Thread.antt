-- ===== src/Arm/Thread.antt =====
-- src/franka_right_arm.cpp: the loops of `franka_control_thread_R`. What libfranka does is an
-- argument: the states that `readOnce` gives (`none` is an exception), the course of a trajectory,
-- and whether a point-to-point motion goes through. The two segments are attached, which
-- `ensureShmAttached` sees to.
use franka_kistar_r_exp_gwb.Common.{
  ℕ, Bool, true, false, ◌||◌, not, Option, none, some, List, [], ◌∷◌, Array, update, copy, ◌==◌,
  if◌then◌else◌,
}
use franka_kistar_r_exp_gwb.Common.Int.{ℤ, pos}
use franka_kistar_r_exp_gwb.Double.{Double}
use franka_kistar_r_exp_gwb.Shm.{
  ShmMsgs, ArmTrajShm, arm_dof, arm_traj_idle, arm_traj_pending, arm_traj_executing,
}
use franka_kistar_r_exp_gwb.Arm.Robot.{RobotState, right_arm_index, update_right_arm_state_to_shm}
use franka_kistar_r_exp_gwb.Arm.Limits.{
  sanitize_speed_factor, is_target_changed, default_speed_factor,
}
use franka_kistar_r_exp_gwb.Arm.Execute.{
  Tick, Copying, World, Outcome, returned, raised, broken, traj_state, mark_trajectory_done,
  execute_traj_from_shm,
}
pub mod Quiet
pub mod Recovery
pub mod Kept
pub mod Session

-- What libfranka and the robot do in one round.
pub record Round (F : Type 0) : Type 0 where
  pub before : Option (RobotState F)
  pub copying : Copying F
  pub course : List (Tick F)
  pub moves : Bool
  pub after : Option (RobotState F)

-- `MotionGenerator motion_generator(spd, target)` and the call that runs it
pub record PointToPoint (F : Type 0) : Type 0 where
  pub speed : F
  pub target : Array F

pub record Thread (F : Type 0) : Type 0 where
  pub world : World F
  pub last_target : Array F
  pub motions : List (PointToPoint F)

-- How a round of the inner loop ends. A failed round is behind the `catch` blocks.
pub data Step (F : Type 0) : Type 0 where
  next : Thread F → Step F
  failed : World F → Step F
  crashed : Step F

module _ {F : Type 0} ⦃d : Double F⦄ where
  abbrev pub observe : RobotState F → World F → World F
  observe st w = record w { shm = update_right_arm_state_to_shm st w.shm }

  abbrev pub read_target : World F → Array F → Array F
  read_target w fallback = copy arm_dof (w.shm.arm_j_tar right_arm_index) fallback

  abbrev pub read_speed : World F → F
  read_speed w = w.shm.arm_speed_factor right_arm_index

  -- The `readOnce` behind a motion, and the end of the round.
  unfoldable pub settle : Round F → Thread F → Step F
  settle r t = elim r.after [
    | none ↦ failed (mark_trajectory_done t.world)
    | some st ↦ next (record t { world = observe st t.world })
  ]

  unfoldable pub trajectory_mode : Round F → List (PointToPoint F) → Outcome F → Step F
  trajectory_mode r motions (returned last sent w) =
      settle r (record { world = w; last_target = last; motions = motions })
  trajectory_mode r motions (raised sent w) = failed (mark_trajectory_done w)
  trajectory_mode r motions broken = crashed

  unfoldable pub point_to_point_mode : F → Round F → Thread F → Step F
  point_to_point_mode config_speed r t =
      let target = read_target t.world t.last_target in
      if is_target_changed target t.last_target
      then (let spd = sanitize_speed_factor (read_speed t.world) config_speed in
          let motion : PointToPoint F = record { speed = spd; target = target } in
          if r.moves
          then settle r (record t { last_target = target; motions = motion ∷ t.motions })
          else failed (mark_trajectory_done t.world))
      else next t

  -- One round of the inner loop.
  unfoldable pub iterate : F → Round F → Thread F → Step F
  iterate config_speed r t = elim r.before [
    | none ↦ failed (mark_trajectory_done t.world)
    | some st ↦
        let w = observe st t.world in
        if traj_state w == arm_traj_pending
        then trajectory_mode r t.motions (execute_traj_from_shm r.copying r.course w)
        else point_to_point_mode config_speed r (record t { world = w })
  ]

  -- The inner loop, for as many rounds as are given.
  unfoldable pub run_rounds : F → List (Round F) → Thread F → Step F
  run_rounds config_speed [] t = next t
  run_rounds config_speed (r ∷ rs) t = elim (iterate config_speed r t) [
    | next u ↦ run_rounds config_speed rs u
    | failed w ↦ failed w
    | crashed ↦ crashed
  ]

  -- From the first `readOnce` behind a connection up to the inner loop.
  unfoldable pub connect : RobotState F → World F → Thread F
  connect st w0 =
      let w = observe st w0 in
      let tar = w.shm.arm_j_tar in
      let shm = record w.shm {
        arm_j_tar = update tar right_arm_index (copy arm_dof st.q (tar right_arm_index));
        arm_speed_factor = update w.shm.arm_speed_factor right_arm_index default_speed_factor;
      } in
      let buf = w.traj.arm_traj right_arm_index in
      let cleared = record w.traj {
        arm_traj =
            update w.traj.arm_traj right_arm_index
              (record buf { state = arm_traj_idle; len = pos 0 });
      } in
      let keep = buf.state == arm_traj_pending || buf.state == arm_traj_executing in
      record {
        world = record { shm = shm; traj = if not keep then cleared else w.traj };
        last_target = st.q;
        motions = [];
      }
