-- ===== src/System/Protocol.antt =====
-- The trajectory buffer between the bridge, the arm's thread and the reset tool
-- (`on_franka_trajectory`, `franka_control_thread_R`, scripts/reset_arm_traj.cpp), one whole
-- operation after the other.
use franka_kistar_r_exp_gwb.Common.{
  ℕ, Bool, true, false, ◌≤◌, ◌<◌, ◌≡◌, ◌⊎◌, inl, inr, refl, sym, subst, Option, some, arith, length,
}
use franka_kistar_r_exp_gwb.Common.Int.{pos}
use franka_kistar_r_exp_gwb.Double.{Double}
use franka_kistar_r_exp_gwb.Shm.{
  ShmMsgs, ArmTrajBuf, ArmTrajShm, arm_dof, arm_traj_idle, arm_traj_pending, arm_traj_done,
  arm_traj_max_pts,
}
use franka_kistar_r_exp_gwb.Arm.Robot.{RobotState, right_arm_index}
use franka_kistar_r_exp_gwb.Arm.Execute.{World, traj_state, mark_trajectory_done}
use franka_kistar_r_exp_gwb.Arm.Thread.Kept.{Goes, IsDoneOrKept, iterate-IsDoneOrKept}
use franka_kistar_r_exp_gwb.Arm.Thread.{Round, Thread, next, failed, iterate, connect}
use franka_kistar_r_exp_gwb.Arm.Thread.Recovery.{Fails, iterate-done, connect_idle, connect_pending}
use franka_kistar_r_exp_gwb.Bridge.Trajectory.{
  JointTrajectory, joint_value, time_value, on_franka_trajectory,
}
use franka_kistar_r_exp_gwb.Bridge.Trajectory.Buffer.{
  IsPublished, published_joint, published_stamp, on_franka_trajectory_lem, handled,
}
use franka_kistar_r_exp_gwb.Tools.{reset_arm_traj, reset_arm_traj_lem}

-- The arm's thread with the memory, whether it is connected, which it is in its inner loop, and the
-- message that the bridge took last.
pub record Sys (F : Type 0) : Type 0 where
  pub thread : Thread F
  pub connected : Bool
  pub last : Option (JointTrajectory F)

module _ {F : Type 0} ⦃d : Double F⦄ where
  abbrev pub with_traj : ArmTrajShm F → Thread F → Thread F
  with_traj traj t = record t { world = record t.world { traj = traj } }

  abbrev pub with_shm : ShmMsgs F → Thread F → Thread F
  with_shm shm t = record t { world = record t.world { shm = shm } }

  -- The bridge takes a trajectory message or ignores it, another process stores targets or measured
  -- values, the arm's thread goes one round, or it fails and pauses, it connects again or fails to,
  -- the tool resets the buffer. Any other step may come in the pause.
  pub data Step : Sys F → Sys F → Type 0 where
    publishes :
        (s : Sys F) (msg : JointTrajectory F)
        → 0 < length msg.points
        → length msg.points ≤ arm_traj_max_pts
        → Step s (record {
          thread = with_traj (on_franka_trajectory msg s.thread.world.traj) s.thread;
          connected = s.connected;
          last = some msg;
        })
    ignores :
        (s : Sys F) (msg : JointTrajectory F)
        → (length msg.points ≡ 0) ⊎ (arm_traj_max_pts < length msg.points)
        → Step s (record s {
          thread = with_traj (on_franka_trajectory msg s.thread.world.traj) s.thread;
        })
    stores : (s : Sys F) (shm : ShmMsgs F) → Step s (record s { thread = with_shm shm s.thread })
    turns :
        (s : Sys F) (config_speed : F) (r : Round F) (t : Thread F)
        → s.connected ≡ true
        → iterate config_speed r s.thread ≡ next t
        → Step s (record s { thread = t })
    fails :
        (s : Sys F) (config_speed : F) (r : Round F) (w : World F)
        → s.connected ≡ true
        → iterate config_speed r s.thread ≡ failed w
        → Step s (record s { thread = record s.thread { world = w }; connected = false })
    connects :
        (s : Sys F) (st : RobotState F)
        → s.connected ≡ false
        → Step s (record s { thread = connect st s.thread.world; connected = true })
    misses :
        (s : Sys F)
        → s.connected ≡ false
        → Step s
            (record s { thread = record s.thread { world = mark_trajectory_done s.thread.world } })
    resets :
        (s : Sys F)
        → Step s (record s { thread = with_traj (reset_arm_traj s.thread.world.traj) s.thread })

  pub data Reach (s : Sys F) : Sys F → Type 0 where
    here : Reach s s
    later : {t u : Sys F} → Reach s t → Step t u → Reach s u

  -- The buffer is IDLE, DONE, or PENDING with the whole message that the bridge took last.
  abbrev pub Holds : Option (JointTrajectory F) → ArmTrajBuf F → Type 0
  Holds last buf =
      (buf.state ≡ arm_traj_idle)
      ⊎ (buf.state ≡ arm_traj_done)
      ⊎ ((buf.state ≡ arm_traj_pending)
          × (msg : JointTrajectory F) × (last ≡ some msg)
          × (buf.len ≡ pos (length msg.points))
          × ((i j : ℕ) → i < length msg.points → j < arm_dof → buf.q i j ≡ joint_value msg i j)
          × ((i : ℕ) → i < length msg.points → buf.t i ≡ time_value msg i))

  abbrev pub IsOrderly : Sys F → Type 0
  IsOrderly s = Holds s.last (s.thread.world.traj.arm_traj right_arm_index)

  published-Holds :
      (msg : JointTrajectory F) (old new : ArmTrajShm F)
      → IsPublished msg old new
      → Holds (some msg) (new.arm_traj 0)
  published-Holds msg old new w = inr (
      inr (
        w.status,
        msg,
        refl,
        w.count,
        published_joint msg old new w,
        published_stamp msg old new w,
      ))

  ignored :
      (msg : JointTrajectory F) (shm : ArmTrajShm F)
      → (length msg.points ≡ 0) ⊎ (arm_traj_max_pts < length msg.points)
      → on_franka_trajectory msg shm ≡ shm
  ignored msg shm bad = elim (on_franka_trajectory_lem msg shm) [
    | inl (_, same) ↦ same
    | inr (p, l, _) ↦ absurd (omega arith)
  ]

  kept-Holds :
      (last : Option (JointTrajectory F)) (w : World F) (t : Thread F)
      → Holds last (w.traj.arm_traj right_arm_index)
      → IsDoneOrKept w t
      → Holds last (t.world.traj.arm_traj right_arm_index)
  kept-Holds last w t h (inl done) = inr (inl done)
  kept-Holds last w t h (inr same) =
      subst (λ (x : ArmTrajShm F). Holds last (x.arm_traj right_arm_index)) (sym same) h

  connect-Holds :
      (last : Option (JointTrajectory F)) (w : World F) (st : RobotState F)
      → Holds last (w.traj.arm_traj right_arm_index)
      → Holds last ((connect st w).world.traj.arm_traj right_arm_index)
  unfolding connect
  connect-Holds last w st (inl idle) = inl (ground arith)
  connect-Holds last w st (inr (inl done)) = inl (connect_idle w st done)
  connect-Holds last w st (inr (inr h)) =
      subst (λ (x : ArmTrajShm F). Holds last (x.arm_traj right_arm_index))
        (sym (connect_pending w st h.0)) (inr (inr h))

  Step-IsOrderly : {s t : Sys F} → Step s t → IsOrderly s → IsOrderly t
  Step-IsOrderly (publishes s msg p l) h =
      published-Holds msg s.thread.world.traj _ (handled msg s.thread.world.traj p l)
  Step-IsOrderly (ignores s msg bad) h =
      subst (λ (x : ArmTrajShm F). Holds s.last (x.arm_traj right_arm_index))
        (sym (ignored msg s.thread.world.traj bad)) h
  Step-IsOrderly (stores s shm) h = h
  Step-IsOrderly (turns s c r t on e) h =
      kept-Holds s.last s.thread.world t h
        (subst (Goes (IsDoneOrKept s.thread.world)) e (iterate-IsDoneOrKept c r s.thread))
  Step-IsOrderly (fails s c r w on e) h =
      inr (inl (subst (Fails (λ v. traj_state v ≡ arm_traj_done)) e (iterate-done c r s.thread)))
  Step-IsOrderly (connects s st off) h = connect-Holds s.last s.thread.world st h
  Step-IsOrderly (misses s off) h = inr (inl refl)
  Step-IsOrderly (resets s) h = inl (reset_arm_traj_lem s.thread.world.traj).0

  -- However the bridge, the arm's thread with its failures, pauses and reconnections, the reset
  -- tool and other writers take turns, the buffer is IDLE, DONE, or PENDING with the whole message
  -- that the bridge took last: between two operations it is never EXECUTING, and a PENDING one
  -- never holds a part of a message or an older one.
  pub Reach-IsOrderly : {s t : Sys F} → Reach s t → IsOrderly s → IsOrderly t
  Reach-IsOrderly here h = h
  Reach-IsOrderly (later r x) h = Step-IsOrderly x (Reach-IsOrderly r h)
