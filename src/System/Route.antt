-- ===== src/System/Route.antt =====
-- A trajectory on its way from the topic (`on_franka_trajectory` of
-- ros2/kistar_hand_bridge/src/kistar_hand_bridge_node.cpp) to the robot (a round of
-- `franka_control_thread_R`, src/franka_right_arm.cpp).
use franka_kistar_r_exp_gwb.Common.{
  ℕ, ◌+◌, ◌-◌, ◌≤◌, ◌<◌, ◌≡◌, List, [], ◌∷◌, ◌⊎◌, inl, inr, refl, ap, sym, subst, ◌∙◌, false, some,
  Array, arith, length, some-ne-none,
}
use mathlib.Core.Option.{some-injective}
use franka_kistar_r_exp_gwb.Double.{Double, IsIeee, ◌≼◌, ◌≺◌}
use franka_kistar_r_exp_gwb.Shm.{ArmTrajShm, arm_dof, arm_traj_max_pts, arm_traj_pending}
use franka_kistar_r_exp_gwb.Arm.Robot.{RobotState, right_arm_index}
use franka_kistar_r_exp_gwb.Arm.Plan.{Plan, load, IsEntry}
use franka_kistar_r_exp_gwb.Arm.Plan.Race.{load_racing}
use franka_kistar_r_exp_gwb.Arm.Motion.Between.{IsBetween}
use franka_kistar_r_exp_gwb.Arm.Execute.{
  World, Outcome, returned, raised, broken, undisturbed, copied_from, traj_state,
  execute_traj_from_shm,
}
use franka_kistar_r_exp_gwb.Arm.Execute.Done.{Returns, execute_traj_from_shm_synced}
use franka_kistar_r_exp_gwb.Arm.Execute.Sent.{All}
use franka_kistar_r_exp_gwb.Arm.Execute.Safe.{sent_of, IsSafeFor, execute_traj_from_shm_safe}
use franka_kistar_r_exp_gwb.Arm.Thread.{Round, Thread, Step, observe, trajectory_mode, iterate}
use franka_kistar_r_exp_gwb.Bridge.Trajectory.{
  JointTrajectory, joint_value, time_value, on_franka_trajectory,
}
use franka_kistar_r_exp_gwb.Bridge.Trajectory.Buffer.{handled, on_franka_trajectory-load}

module _ {F : Type 0} ⦃d : Double F⦄ where
  -- The pose `q` at the time `e` is on the way that the message describes, or its time is before
  -- the first point's, or no finite number.
  abbrev pub Follows : JointTrajectory F → F × Array F → Type 0
  Follows msg (e, q) =
      let last = length msg.points - 1 in
      ((i : ℕ) × (i + 1 < length msg.points)
        × (time_value msg i ≼ e)
        × (e ≺ time_value msg (i + 1))
        × ((j : ℕ)
            → j < arm_dof
            → IsBetween (joint_value msg i j) (joint_value msg (i + 1) j) (q j)))
      ⊎ ((time_value msg last ≼ e) × ((j : ℕ) → j < arm_dof → q j ≡ joint_value msg last j))
      ⊎ (e ≺ time_value msg 0)
      ⊎ (d.is_finite e ≡ false)

  -- The plan is the message.
  pub record IsPlanOf (msg : JointTrajectory F) (p : Plan F) : Type 0 where
    pub count : p.len ≡ length msg.points
    pub joints :
        (i j : ℕ) → i < length msg.points → j < arm_dof → p.waypoints i j ≡ joint_value msg i j
    pub stamps : (i : ℕ) → i < length msg.points → p.times i ≡ time_value msg i

  safe-Follows :
      (msg : JointTrajectory F) (p : Plan F) (x : F × Array F)
      → 0 < length msg.points
      → IsPlanOf msg p
      → IsSafeFor p x
      → Follows msg x
  safe-Follows msg p (e, q) pos same (inr (inl early)) =
      inr (inr (inl (subst (λ y. e ≺ y) (same.stamps 0 pos) early)))
  safe-Follows msg p (e, q) pos same (inr (inr odd)) = inr (inr (inr odd))
  safe-Follows msg p (e, q) pos same (inl (inr (past, end'))) =
      let final : p.len - 1 ≡ length msg.points - 1 = omega (arith, same.count) in
      let l : length msg.points - 1 < length msg.points = omega arith in
      inr (
        inl (
          subst (λ y. y ≼ e) (ap p.times final ∙ same.stamps _ l) past,
          λ j m. ap (λ (a : Array F). a j) (end' ∙ ap p.waypoints final) ∙ same.joints _ j l m,
        ))
  safe-Follows msg p (e, q) pos same (inl (inl (i, l, lo, hi, between))) =
      let n : i + 1 < length msg.points = omega (arith, same.count) in
      let m : i < length msg.points = omega arith in
      inl (
        i,
        n,
        subst (λ y. y ≼ e) (same.stamps i m) lo,
        subst (λ y. e ≺ y) (same.stamps (i + 1) n) hi,
        λ j k. rw (← same.joints i j m k, ← same.joints (i + 1) j n k) (between j k),
      )

  All-Follows :
      (msg : JointTrajectory F) (p : Plan F) (xs : List (F × Array F))
      → 0 < length msg.points
      → IsPlanOf msg p
      → All (IsSafeFor p) xs
      → All (Follows msg) xs
  All-Follows msg p [] pos same a = tt
  All-Follows msg p (x ∷ xs) pos same (h, a) =
      (safe-Follows msg p x pos same h, All-Follows msg p xs pos same a)

  -- The pose returned is the message's last, and so is the target in the memory.
  abbrev pub IsFollowed : JointTrajectory F → Array F → World F → Type 0
  IsFollowed msg last v =
      (j : ℕ)
      → j < arm_dof
      → (last j ≡ joint_value msg (length msg.points - 1) j)
        × (v.shm.arm_j_tar right_arm_index j ≡ last j)

  -- What the copy finds in the memory that the handler has left.
  handled_plan :
      (laws : IsIeee F) (msg : JointTrajectory F) (old : ArmTrajShm F) (w : World F)
      → 0 < length msg.points
      → length msg.points ≤ arm_traj_max_pts
      → ((i : ℕ) → i < length msg.points → IsEntry (joint_value msg) (time_value msg) i)
      → w.traj ≡ on_franka_trajectory msg old
      → (p : Plan F) × (load_racing (copied_from undisturbed w) ≡ some p) × IsPlanOf msg p
  unfolding load_racing load
  handled_plan laws msg old w pos few h e =
      let (p, loaded, count, joints, stamps) = on_franka_trajectory-load laws msg old pos few h in
      (
        p,
        ap (λ (s : ArmTrajShm F). load (s.arm_traj 0)) e ∙ loaded,
        record { count = count; joints = joints; stamps = stamps },
      )

  Returns-map :
      {P Q : Array F → World F → Type 0} (o : Outcome F)
      → ((a : Array F) (w : World F) → P a w → Q a w)
      → Returns P o
      → Returns Q o
  Returns-map (returned last sent w) f h = f last w h
  Returns-map (raised sent w) f h = tt
  Returns-map broken f h = tt

  round_follows :
      (config_speed : F) (r : Round F) (t : Thread F) (st : RobotState F)
      → r.before ≡ some st
      → traj_state t.world ≡ arm_traj_pending
      → iterate config_speed r t
        ≡ trajectory_mode r t.motions
            (execute_traj_from_shm r.copying r.course (observe st t.world))
  unfolding iterate
  round_follows config_speed r t st now pending = enters _ refl
    where
      enters :
          (s : Step F)
          → trajectory_mode r t.motions
              (execute_traj_from_shm r.copying r.course (observe st t.world))
            ≡ s
          → iterate config_speed r t ≡ s
      enters s e = rw (now, iterate) (rw pending e)

  -- A message of 1 to 1000 points whose joints lie within the limits and whose times are finite,
  -- not negative and rising, once the bridge has taken it, is followed in the next round of the
  -- arm's thread if nothing writes the buffer during the copy: every set point sent lies in each
  -- joint between the message's two points around its time or, by rounding, at most 10^-9 beyond
  -- the second of them, or is the message's last pose if its time has passed, or its time is before
  -- the first point's or no finite number. If the motion ends well, the target left behind is the
  -- message's last pose.
  pub topic_to_arm :
      (laws : IsIeee F) (msg : JointTrajectory F) (old : ArmTrajShm F) (config_speed : F)
      (r : Round F) (t : Thread F) (st : RobotState F)
      → 0 < length msg.points
      → length msg.points ≤ arm_traj_max_pts
      → ((i : ℕ) → i < length msg.points → IsEntry (joint_value msg) (time_value msg) i)
      → t.world.traj ≡ on_franka_trajectory msg old
      → r.before ≡ some st
      → r.copying ≡ undisturbed
      → let o = execute_traj_from_shm r.copying r.course (observe st t.world) in
        (iterate config_speed r t ≡ trajectory_mode r t.motions o)
        × All (Follows msg) (sent_of o)
        × Returns (IsFollowed msg) o
  topic_to_arm laws msg old config_speed r t st pos few h e now alone =
      let w = observe st t.world in
      let o = execute_traj_from_shm undisturbed r.course w in
      let (p, loaded, same) = handled_plan laws msg old w pos few h e in
      let pending : traj_state t.world ≡ arm_traj_pending =
        ap (λ (s : ArmTrajShm F). (s.arm_traj 0).state) e ∙ (handled msg old pos few).status in
      let safe : All (IsSafeFor p) (sent_of o) =
        elim (execute_traj_from_shm_safe laws undisturbed r.course w) [
          | inl (refused, _) ↦ absurd (some-ne-none (sym loaded ∙ refused))
          | inr (p', loaded', _, all) ↦
              subst (λ x. All (IsSafeFor x) (sent_of o)) (some-injective _ _ (sym loaded' ∙ loaded))
                all
        ] in
      let final : p.len - 1 ≡ length msg.points - 1 = omega (arith, same.count) in
      (
        round_follows config_speed r t st now pending,
        subst (λ c. All (Follows msg) (sent_of (execute_traj_from_shm c r.course w))) (sym alone)
            (All-Follows msg p (sent_of o) pos same safe),
        subst (λ c. Returns (IsFollowed msg) (execute_traj_from_shm c r.course w)) (sym alone)
            (Returns-map o
              (λ last v (end', synced) j l. (
                ap (λ (a : Array F). a j) (end' ∙ ap p.waypoints final)
                    ∙ same.joints _ j (omega arith) l,
                synced j l,
              ))
              (execute_traj_from_shm_synced undisturbed r.course w p loaded)),
      )
