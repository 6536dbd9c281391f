-- ===== src/Arm/Thread/Kept.antt =====
-- What a round of `franka_control_thread_R` (src/franka_right_arm.cpp) does to the trajectory
-- buffer.
use franka_kistar_r_exp_gwb.Common.{
  ◌≡◌, ◌⊎◌, inl, inr, refl, Bool, true, false, List, ◌==◌, if◌then◌else◌, Bool-cases, Option-cases,
}
use franka_kistar_r_exp_gwb.Double.{Double}
use franka_kistar_r_exp_gwb.Shm.{arm_traj_pending, arm_traj_done}
use franka_kistar_r_exp_gwb.Arm.Limits.{is_target_changed}
use franka_kistar_r_exp_gwb.Arm.Execute.{
  World, Outcome, returned, raised, broken, traj_state, mark_trajectory_done,
}
use franka_kistar_r_exp_gwb.Arm.Execute.Done.{Leaves, execute_traj_from_shm-done}
use franka_kistar_r_exp_gwb.Arm.Thread.{
  Round, PointToPoint, Thread, Step, next, failed, crashed, observe, read_target, settle,
  trajectory_mode, point_to_point_mode, iterate,
}

module _ {F : Type 0} ⦃d : Double F⦄ where
  -- What holds of the thread, if the round goes through.
  abbrev pub Goes : (Thread F → Type 0) → Step F → Type 0
  Goes P (next t) = P t
  Goes P (failed w) = Unit
  Goes P crashed = Unit

  -- A round has either marked the buffer DONE or left it alone.
  abbrev pub IsDoneOrKept : World F → Thread F → Type 0
  IsDoneOrKept w t = (traj_state t.world ≡ arm_traj_done) ⊎ (t.world.traj ≡ w.traj)

  settle-IsDoneOrKept :
      (w : World F) (r : Round F) (t : Thread F)
      → IsDoneOrKept w t
      → Goes (IsDoneOrKept w) (settle r t)
  unfolding settle
  settle-IsDoneOrKept w r t h = elim (Option-cases r.after) [
    | inl e ↦ rw (e, settle) tt
    | inr (st, e) ↦ rw (e, settle) h
  ]

  trajectory_mode-IsDoneOrKept :
      (w : World F) (r : Round F) (ms : List (PointToPoint F)) (o : Outcome F)
      → Leaves (λ v. traj_state v ≡ arm_traj_done) o
      → Goes (IsDoneOrKept w) (trajectory_mode r ms o)
  unfolding trajectory_mode
  trajectory_mode-IsDoneOrKept w r ms (returned last sent v) h = settle-IsDoneOrKept w r _ (inl h)
  trajectory_mode-IsDoneOrKept w r ms (raised sent v) h = tt
  trajectory_mode-IsDoneOrKept w r ms broken h = tt

  moves-IsDoneOrKept :
      (go : Bool) (w v : World F) (r : Round F) (t : Thread F)
      → IsDoneOrKept w t
      → Goes (IsDoneOrKept w) (if go then settle r t else failed (mark_trajectory_done v))
  moves-IsDoneOrKept true w v r t h = settle-IsDoneOrKept w r t h
  moves-IsDoneOrKept false w v r t h = tt

  point_to_point_mode-IsDoneOrKept :
      (c : F) (r : Round F) (t : Thread F) → Goes (IsDoneOrKept t.world) (point_to_point_mode c r t)
  unfolding point_to_point_mode
  point_to_point_mode-IsDoneOrKept c r t =
      elim (Bool-cases (is_target_changed (read_target t.world t.last_target) t.last_target)) [
        | inl new ↦ rw new (moves-IsDoneOrKept r.moves t.world t.world r _ (inr refl))
        | inr old ↦ rw old (inr refl)
      ]

  pub iterate-IsDoneOrKept :
      (c : F) (r : Round F) (t : Thread F) → Goes (IsDoneOrKept t.world) (iterate c r t)
  unfolding iterate
  iterate-IsDoneOrKept c r t = elim (Option-cases r.before) [
    | inl e ↦ rw (e, iterate) tt
    | inr (st, e) ↦
        let w = observe st t.world in
        rw (e, iterate)
          (elim (Bool-cases (traj_state w == arm_traj_pending)) [
            | inl p ↦ rw p (
                trajectory_mode-IsDoneOrKept t.world r t.motions _
                  (execute_traj_from_shm-done r.copying r.course w))
            | inr p ↦ rw p (point_to_point_mode-IsDoneOrKept c r (record t { world = w }))
          ])
  ]
