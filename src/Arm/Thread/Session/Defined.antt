-- ===== src/Arm/Thread/Session/Defined.antt =====
-- The vectors of `executeTrajFromShm` in a run of `franka_control_thread_R`
-- (src/franka_right_arm.cpp).
use franka_kistar_r_exp_gwb.Common.{
  ℕ, ◌≢◌, inl, inr, subst, Bool, true, false, List, [], ◌∷◌, arith, ◌==◌, if◌then◌else◌, Bool-cases,
  Option-cases,
}
use franka_kistar_r_exp_gwb.Double.{Double, IsIeee}
use franka_kistar_r_exp_gwb.Shm.{arm_traj_pending}
use franka_kistar_r_exp_gwb.Arm.Robot.{RobotState}
use franka_kistar_r_exp_gwb.Arm.Limits.{is_target_changed}
use franka_kistar_r_exp_gwb.Arm.Execute.{
  World, Outcome, returned, raised, broken, traj_state, mark_trajectory_done,
}
use franka_kistar_r_exp_gwb.Arm.Thread.{
  Round, Thread, PointToPoint, Step, next, failed, crashed, observe, read_target, settle,
  trajectory_mode, point_to_point_mode, iterate, connect,
}
use franka_kistar_r_exp_gwb.Arm.Thread.Session.{Session, run_shared, control_thread}
use franka_kistar_r_exp_gwb.Arm.Execute.Defined.{
  IsNotSingle, Keeps, CourseKeeps, IsDefined, execute_traj_from_shm-IsDefined,
}

module _ {F : Type 0} ⦃d : Double F⦄ where
  abbrev pub RoundKeeps : Round F → Type 0
  RoundKeeps r =
      ((k : ℕ) → Keeps (r.copying.during k)) × Keeps r.copying.past × CourseKeeps r.course

  abbrev pub WriteKeeps : (World F → World F) → Type 0
  WriteKeeps f = (w : World F) → IsNotSingle w.traj → IsNotSingle (f w).traj

  abbrev pub RoundsKeep : List ((World F → World F) × Round F) → Type 0
  RoundsKeep [] = Unit
  RoundsKeep ((f, r) ∷ rs) = WriteKeeps f × RoundKeeps r × RoundsKeep rs

  abbrev pub SessionsKeep : List (Session F) → Type 0
  SessionsKeep [] = Unit
  SessionsKeep (s ∷ ss) = WriteKeeps s.meanwhile × RoundsKeep s.rounds × SessionsKeep ss

  abbrev pub Continues : Step F → Type 0
  Continues (next t) = IsNotSingle t.world.traj
  Continues (failed w) = IsNotSingle w.traj
  Continues crashed = ⊥

  settle-Continues :
      (r : Round F) (t : Thread F) → IsNotSingle t.world.traj → Continues (settle r t)
  unfolding settle
  settle-Continues r t h = elim (Option-cases r.after) [
    | inl e ↦ rw (e, settle) h
    | inr (st, e) ↦ rw (e, settle) h
  ]

  trajectory_mode-Continues :
      (r : Round F) (ms : List (PointToPoint F)) (o : Outcome F)
      → IsDefined o
      → Continues (trajectory_mode r ms o)
  unfolding trajectory_mode
  trajectory_mode-Continues r ms (returned last sent v) h = settle-Continues r _ h
  trajectory_mode-Continues r ms (raised sent v) h = h
  trajectory_mode-Continues r ms broken h = absurd h

  moves-Continues :
      (go : Bool) (r : Round F) (t : Thread F) (w : World F)
      → IsNotSingle t.world.traj
      → IsNotSingle w.traj
      → Continues (if go then settle r t else failed (mark_trajectory_done w))
  moves-Continues true r t w h g = settle-Continues r t h
  moves-Continues false r t w h g = g

  point_to_point_mode-Continues :
      (c : F) (r : Round F) (t : Thread F)
      → IsNotSingle t.world.traj
      → Continues (point_to_point_mode c r t)
  unfolding point_to_point_mode
  point_to_point_mode-Continues c r t h =
      elim (Bool-cases (is_target_changed (read_target t.world t.last_target) t.last_target)) [
        | inl new ↦ rw new (moves-Continues r.moves r _ t.world h h)
        | inr old ↦ rw old h
      ]

  iterate-Continues :
      (laws : IsIeee F) (c : F) (r : Round F) (t : Thread F)
      → RoundKeeps r
      → IsNotSingle t.world.traj
      → Continues (iterate c r t)
  unfolding iterate
  iterate-Continues laws c r t (during, past, course) h = elim (Option-cases r.before) [
    | inl e ↦ rw (e, iterate) h
    | inr (st, e) ↦
        let w = observe st t.world in
        rw (e, iterate)
          (elim (Bool-cases (traj_state w == arm_traj_pending)) [
            | inl p ↦ rw p (
                trajectory_mode-Continues r t.motions _
                  (execute_traj_from_shm-IsDefined laws r.copying r.course w during past course h))
            | inr p ↦ rw p (point_to_point_mode-Continues c r (record t { world = w }) h)
          ])
  ]

  connect-IsNotSingle :
      (st : RobotState F) (w : World F) → IsNotSingle w.traj → IsNotSingle (connect st w).world.traj
  unfolding connect
  connect-IsNotSingle st w h = ground (arith, h)

  run_shared-Continues :
      (laws : IsIeee F) (c : F) (rs : List ((World F → World F) × Round F)) (t : Thread F)
      → RoundsKeep rs
      → IsNotSingle t.world.traj
      → Continues (run_shared c rs t)
  unfolding run_shared
  run_shared-Continues laws c [] t k h = h
  run_shared-Continues laws c ((f, r) ∷ rs) t (kf, kr, ks) h =
      goes (iterate c r (record t { world = f t.world }))
        (iterate-Continues laws c r (record t { world = f t.world }) kr (kf t.world h))
        (λ u g. run_shared-Continues laws c rs u ks g)
    where
      goes :
          (s : Step F)
          → Continues s
          → ((u : Thread F) → IsNotSingle u.world.traj → Continues (run_shared c rs u))
          → Continues
              (elim s [ next u ↦ run_shared c rs u | failed w ↦ failed w | crashed ↦ crashed ])
      goes (next u) g rest = rest u g
      goes (failed w) g rest = g
      goes crashed g rest = absurd g

  control_thread-Continues :
      (laws : IsIeee F) (c : F) (ss : List (Session F)) (w : World F)
      → SessionsKeep ss
      → IsNotSingle w.traj
      → Continues (control_thread c ss w)
  unfolding control_thread
  control_thread-Continues laws c [] w k h = h
  control_thread-Continues laws c (s ∷ ss) w (km, kr, ks) h = elim (Option-cases s.connected) [
    | inl e ↦
        rw e (control_thread-Continues laws c ss (mark_trajectory_done (s.meanwhile w)) ks (km w h))
    | inr (st, e) ↦
        let t = connect st (s.meanwhile w) in
        rw e (
          goes (run_shared c s.rounds t)
            (run_shared-Continues laws c s.rounds t kr
              (connect-IsNotSingle st (s.meanwhile w) (km w h)))
            (λ v g. control_thread-Continues laws c ss v ks g))
  ]
    where
      goes :
          (x : Step F)
          → Continues x
          → ((v : World F) → IsNotSingle v.traj → Continues (control_thread c ss v))
          → Continues
              (elim x [ next t ↦ next t | failed v ↦ control_thread c ss v | crashed ↦ crashed ])
      goes (next t) g rest = g
      goes (failed v) g rest = rest v g
      goes crashed g rest = absurd g

  -- In a run of the arm's thread over any number of connections and rounds, whatever fails and
  -- whatever other processes write in between, during a copy and during a motion, the callback
  -- never reads past the end of a vector, if the buffer does not hold a single waypoint at first
  -- and nobody else makes it hold one.
  pub control_thread_defined :
      (laws : IsIeee F) (config_speed : F) (ss : List (Session F)) (w : World F)
      → SessionsKeep ss
      → IsNotSingle w.traj
      → control_thread config_speed ss w ≢ crashed
  control_thread_defined laws c ss w k h e =
      subst Continues e (control_thread-Continues laws c ss w k h)
