-- ===== src/Arm/Execute/Safe.antt =====
-- What `executeTrajFromShm` (src/franka_right_arm.cpp) sends to the robot, whatever other processes
-- write while it copies the trajectory and while it follows it.
use franka_kistar_r_exp_gwb.Common.{
  ◌≡◌, ◌⊎◌, inl, inr, refl, false, none, some, List, [], Array, Option-cases,
}
use franka_kistar_r_exp_gwb.Double.{Double, IsIeee, ◌≺◌}
use franka_kistar_r_exp_gwb.Arm.Plan.{Plan, IsSound}
use franka_kistar_r_exp_gwb.Arm.Plan.Race.{load_racing, load_racing_sound}
use franka_kistar_r_exp_gwb.Arm.Execute.{
  Tick, Copying, copied_from, World, Motion, End, finished, thrown, undefined, Outcome, returned,
  raised, broken, conclude, follow, execute_traj_from_shm,
}
use franka_kistar_r_exp_gwb.Arm.Execute.Sent.{All, IsOnPath, run_control_safe}

module _ {F : Type 0} ⦃d : Double F⦄ where
  -- The set points of a run; undefined behaviour has none.
  abbrev pub sent_of : Outcome F → List (F × Array F)
  sent_of (returned last sent w) = sent
  sent_of (raised sent w) = sent
  sent_of broken = []

  -- The set point `q` at the time `e` is safe for the plan, or there is no saying: its time is
  -- before the first waypoint's, or no finite number.
  abbrev pub IsSafeFor : Plan F → F × Array F → Type 0
  IsSafeFor p (e, q) = IsOnPath p e q ⊎ (e ≺ p.times 0) ⊎ (d.is_finite e ≡ false)

  pub All-conclude :
      (P : F × Array F → Type 0) (p : Plan F) (r : End × Motion F)
      → All P r.1.sent
      → All P (sent_of (conclude p r))
  unfolding conclude
  All-conclude P p (finished, m) a = a
  All-conclude P p (thrown, m) a = a
  All-conclude P p (undefined, m) a = tt

  -- Whatever other processes write during the copy and during the motion, either the trajectory is
  -- refused and nothing is sent, or it has 1 to 1000 waypoints within the joint limits at finite
  -- times that start at 0 or later and rise strictly, and every set point sent lies in each joint
  -- between the two waypoints around its time or, by rounding, at most 10^-9 beyond the second of
  -- them, or is the last waypoint if the end has passed, or its time is before the first
  -- waypoint's, or no finite number.
  pub execute_traj_from_shm_safe :
      (laws : IsIeee F) (c : Copying F) (ts : List (Tick F)) (w : World F)
      → ((load_racing (copied_from c w) ≡ none) × (sent_of (execute_traj_from_shm c ts w) ≡ []))
        ⊎ ((p : Plan F) × (load_racing (copied_from c w) ≡ some p)
            × IsSound p
            × All (IsSafeFor p) (sent_of (execute_traj_from_shm c ts w)))
  unfolding execute_traj_from_shm follow
  execute_traj_from_shm_safe laws c ts w = elim (Option-cases (load_racing (copied_from c w))) [
    | inl e ↦ inl (e, rw (e, follow) refl)
    | inr (p, e) ↦
        let (sound, _, _, _) = load_racing_sound laws (copied_from c w) p e in
        inr (
          p,
          e,
          sound,
          rw (e, follow) (All-conclude (IsSafeFor p) p _ (run_control_safe laws p sound ts _)),
        )
  ]
