-- ===== src/System/Copy/Torn.antt =====
-- A copy of `executeTrajFromShm` (src/franka_right_arm.cpp) that `on_franka_trajectory`
-- (ros2/kistar_hand_bridge/src/kistar_hand_bridge_node.cpp) overtakes.
use franka_kistar_r_exp_gwb.Common.{
  ℕ, ◌-◌, ◌*◌, ◌≤◌, ◌<◌, ◌≡◌, inl, inr, refl, ap, sym, subst, ◌∙◌, some, Array, arith, length, ltb,
  lt→ltb, le→ltb, Bool-cases, if◌then◌else◌,
}
use franka_kistar_r_exp_gwb.Common.Int.{pos}
use franka_kistar_r_exp_gwb.Double.{Double, IsIeee, ◌≺◌}
use franka_kistar_r_exp_gwb.Shm.{ArmTrajBuf, arm_dof, arm_traj_max_pts}
use franka_kistar_r_exp_gwb.Arm.Plan.{Plan, IsEntry}
use franka_kistar_r_exp_gwb.Arm.Plan.Check.{load_complete, IsEntry-congr}
use franka_kistar_r_exp_gwb.Arm.Plan.Race.{joint_read, time_read, seen, load_racing}
use franka_kistar_r_exp_gwb.Bridge.Trajectory.{
  JointTrajectory, joint_value, time_value, write_trajectory,
}
use franka_kistar_r_exp_gwb.Bridge.Trajectory.Buffer.{write_trajectory_cells, pos_injective}
use franka_kistar_r_exp_gwb.Bridge.Trajectory.Stores.{stores}
use franka_kistar_r_exp_gwb.System.Copy.{meanwhile, all_stored, none_stored}

module _ {F : Type 0} ⦃d : Double F⦄ where
  -- The bridge makes all of its stores between two reads, behind the entries below `cut`.
  abbrev pub overtakes : JointTrajectory F → ℕ → ℕ → ℕ
  overtakes msg cut k = if ltb (8 * cut) k then length (stores msg) else 0

  torn_early :
      (msg : JointTrajectory F) (old : ArmTrajBuf F) (cut k : ℕ)
      → k ≤ 8 * cut
      → meanwhile msg old (overtakes msg cut) k ≡ old
  torn_early msg old cut k h =
      none_stored msg old (overtakes msg cut k) (rw (le→ltb (8 * cut) k h) refl)

  torn_late :
      (msg : JointTrajectory F) (old : ArmTrajBuf F) (cut k : ℕ)
      → 8 * cut < k
      → meanwhile msg old (overtakes msg cut) k ≡ write_trajectory msg old
  torn_late msg old cut k h =
      all_stored msg old (overtakes msg cut k) (rw (lt→ltb (8 * cut) k h) (omega arith))

  -- The entries of the old trajectory below `cut`, and from there on those of the message.
  abbrev pub spliced_q : JointTrajectory F → ArmTrajBuf F → ℕ → Array (Array F)
  spliced_q msg old cut i = if ltb i cut then old.q i else joint_value msg i

  abbrev pub spliced_t : JointTrajectory F → ArmTrajBuf F → ℕ → Array F
  spliced_t msg old cut i = if ltb i cut then old.t i else time_value msg i

  spliced-IsEntry :
      (msg : JointTrajectory F) (old : ArmTrajBuf F) (cut i : ℕ)
      → IsEntry old.q old.t i
      → IsEntry (joint_value msg) (time_value msg) i
      → (0 < cut → old.t (cut - 1) ≺ time_value msg cut)
      → IsEntry (spliced_q msg old cut) (spliced_t msg old cut) i
  spliced-IsEntry msg old cut i o m joined = elim (Bool-cases (ltb i cut)) [
    | inl e ↦ record {
      pose = rw e o.pose;
      finite = rw e o.finite;
      from_start = rw e o.from_start;
      later = λ p. rw (e, lt→ltb (i - 1) cut (ground arith)) (o.later p);
    }
    | inr e ↦ record {
      pose = rw e m.pose;
      finite = rw e m.finite;
      from_start = rw e m.from_start;
      later = λ p. rw e (elim (Bool-cases (ltb (i - 1) cut)) [
        | inl f ↦
            let here : cut ≡ i = ground arith in
            rw f (subst (λ k. old.t (k - 1) ≺ time_value msg k) here (joined (ground arith)))
        | inr f ↦ rw f (m.later p)
      ]);
    }
  ]

  torn_joint :
      (msg : JointTrajectory F) (old : ArmTrajBuf F) (cut i j : ℕ)
      → i < length msg.points
      → j < arm_dof
      → (seen (meanwhile msg old (overtakes msg cut))).q i j ≡ spliced_q msg old cut i j
  torn_joint msg old cut i j l m = elim (Bool-cases (ltb i cut)) [
    | inl e ↦ rw e (
        ap (λ (b : ArmTrajBuf F). b.q i j) (torn_early msg old cut (joint_read i j) (ground arith)))
    | inr e ↦ rw e (
        ap (λ (b : ArmTrajBuf F). b.q i j) (torn_late msg old cut (joint_read i j) (ground arith))
        ∙ (write_trajectory_cells msg old).1 i j l m)
  ]

  torn_stamp :
      (msg : JointTrajectory F) (old : ArmTrajBuf F) (cut i : ℕ)
      → i < length msg.points
      → (seen (meanwhile msg old (overtakes msg cut))).t i ≡ spliced_t msg old cut i
  torn_stamp msg old cut i l = elim (Bool-cases (ltb i cut)) [
    | inl e ↦
        rw e
          (ap (λ (b : ArmTrajBuf F). b.t i) (torn_early msg old cut (time_read i) (ground arith)))
    | inr e ↦ rw e (
        ap (λ (b : ArmTrajBuf F). b.t i) (torn_late msg old cut (time_read i) (ground arith))
        ∙ (write_trajectory_cells msg old).2 i l)
  ]

  -- If the arm's thread copies a trajectory of `n` acceptable entries, and the bridge writes a
  -- message of at least as many acceptable points between the reads of the entries `cut - 1` and
  -- `cut`, the copy is accepted although it is neither: the entries from `cut` on are those of the
  -- message, the others the old ones. It takes only that the times rise where they meet.
  pub load_racing_torn :
      (laws : IsIeee F) (msg : JointTrajectory F) (old : ArmTrajBuf F) (n cut : ℕ)
      → old.len ≡ pos n
      → 0 < n
      → n ≤ arm_traj_max_pts
      → n ≤ length msg.points
      → ((i : ℕ) → i < n → IsEntry old.q old.t i)
      → ((i : ℕ) → i < n → IsEntry (joint_value msg) (time_value msg) i)
      → (0 < cut → old.t (cut - 1) ≺ time_value msg cut)
      → (p : Plan F) × (load_racing (meanwhile msg old (overtakes msg cut)) ≡ some p)
        × (p.len ≡ n)
        × ((i j : ℕ) → i < n → j < arm_dof → p.waypoints i j ≡ spliced_q msg old cut i j)
        × ((i : ℕ) → i < n → p.times i ≡ spliced_t msg old cut i)
  unfolding load_racing
  load_racing_torn laws msg old n cut e p l few o m joined =
      let b = seen (meanwhile msg old (overtakes msg cut)) in
      let count : b.len ≡ pos n =
        ap (λ (x : ArmTrajBuf F). x.len) (torn_early msg old cut 0 (omega arith)) ∙ e in
      let (plan, loaded, sound, copied) = load_complete laws b n count p l λ i k.
        IsEntry-congr laws (spliced_q msg old cut) b.q (spliced_t msg old cut) b.t i
          (λ j h. sym (torn_joint msg old cut i j (omega arith) h))
          (λ h a. sym (torn_stamp msg old cut h (omega arith)))
          (spliced-IsEntry msg old cut i (o i k) (m i k) joined) in
      let same : plan.len ≡ n = pos_injective (sym copied.count ∙ count) in
      (
        plan,
        loaded,
        same,
        λ i j k h. copied.joints i j (rw same k) h ∙ torn_joint msg old cut i j (omega arith) h,
        λ i k. copied.stamps i (rw same k) ∙ torn_stamp msg old cut i (omega arith),
      )
