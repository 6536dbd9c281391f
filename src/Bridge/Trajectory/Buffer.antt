-- ===== src/Bridge/Trajectory/Buffer.antt =====
-- What `on_franka_trajectory` (ros2/kistar_hand_bridge/src/kistar_hand_bridge_node.cpp) leaves in
-- the buffer, and what the arm's thread then makes of it.
use franka_kistar_r_exp_gwb.Common.{
  ℕ, ◌+◌, ◌≤◌, ◌<◌, ◌≡◌, refl, sym, ◌∙◌, Bool, true, false, ◌||◌, ◌⊎◌, inl, inr, some, arith,
  update, copy_lem, for_range, for_range_inv, length, ltb, leb, lt→ltb, le→ltb, ltb→lt,
  eq_zero_or_pos, Bool-cases, if◌then◌else◌,
}
use franka_kistar_r_exp_gwb.Common.Int.{pos}
use franka_kistar_r_exp_gwb.Double.{Double, IsIeee}
use franka_kistar_r_exp_gwb.Shm.{
  ArmTrajBuf, ArmTrajShm, arm_dof, arm_traj_max_pts, arm_traj_pending,
}
use franka_kistar_r_exp_gwb.Arm.Plan.{Plan, load, IsEntry}
use franka_kistar_r_exp_gwb.Arm.Plan.Check.{load_complete, IsEntry-congr}
use franka_kistar_r_exp_gwb.Bridge.Trajectory.{
  JointTrajectory, joint_value, time_value, write_point, write_trajectory, on_franka_trajectory,
}

or_true : (b : Bool) → (b || true) ≡ true
or_true true = refl
or_true false = refl

pub pos_injective : {m n : ℕ} → pos m ≡ pos n → m ≡ n
pos_injective h = cc

size_cases : (n : ℕ) → ((n ≡ 0) ⊎ (arm_traj_max_pts < n)) ⊎ ((0 < n) × (n ≤ arm_traj_max_pts))
size_cases n = elim (Bool-cases (ltb arm_traj_max_pts n)) [
  | inl many ↦ inl (inr (ltb→lt arm_traj_max_pts n many))
  | inr few ↦ elim (eq_zero_or_pos n) [
    | inl none_at_all ↦ inl (inl none_at_all)
    | inr p ↦ inr (p, ground arith)
  ]
]

module _ {F : Type 0} ⦃d : Double F⦄ where
  -- The buffer `b` with the first `n` entries of the message over the old ones.
  pub record IsWritten (msg : JointTrajectory F) (n : ℕ) (old b : ArmTrajBuf F) : Type 0 where
    pub joints :
        (i j : ℕ)
        → b.q i j ≡ (
            if ltb i n then if ltb j arm_dof then joint_value msg i j else old.q i j else old.q i j)
    pub stamps : (i : ℕ) → b.t i ≡ (if ltb i n then time_value msg i else old.t i)
    pub count : b.len ≡ old.len
    pub status : b.state ≡ old.state

  write_point-IsWritten :
      (msg : JointTrajectory F) (old : ArmTrajBuf F) (i : ℕ) (b : ArmTrajBuf F)
      → IsWritten msg i old b
      → IsWritten msg (i + 1) old (write_point msg i b)
  unfolding write_point
  write_point-IsWritten msg old i b w = record {
    joints = λ k j. ground (arith, w.joints k j, copy_lem arm_dof (joint_value msg i) (b.q i) j);
    stamps = λ k. ground (arith, w.stamps k);
    count = w.count;
    status = w.status;
  }

  loop-IsWritten :
      (msg : JointTrajectory F) (old : ArmTrajBuf F) (n : ℕ)
      → IsWritten msg n old (for_range n 0 (write_point msg) old)
  loop-IsWritten msg old n =
      for_range_inv (write_point msg) (λ i b. IsWritten msg i old b) n 0 n old
        (record {
          joints = λ i j. ground arith;
          stamps = λ i. ground arith;
          count = refl;
          status = refl;
        })
        (λ i b w. write_point-IsWritten msg old i b w) (omega arith)

  -- What the handler makes of a message that it takes.
  pub record IsPublished (msg : JointTrajectory F) (old new : ArmTrajShm F) : Type 0 where
    pub count : (new.arm_traj 0).len ≡ pos (length msg.points)
    pub status : (new.arm_traj 0).state ≡ arm_traj_pending
    pub joints :
        (i j : ℕ)
        → (new.arm_traj 0).q i j ≡ (
            if ltb i (length msg.points)
            then if ltb j arm_dof then joint_value msg i j else (old.arm_traj 0).q i j
            else (old.arm_traj 0).q i j)
    pub stamps :
        (i : ℕ)
        → (new.arm_traj 0).t i
          ≡ (if ltb i (length msg.points) then time_value msg i else (old.arm_traj 0).t i)
    pub others : (k : ℕ) → 0 < k → new.arm_traj k ≡ old.arm_traj k
    pub holders : new.process_num ≡ old.process_num

  pub published_joint :
      (msg : JointTrajectory F) (old new : ArmTrajShm F)
      → IsPublished msg old new
      → (i j : ℕ) → i < length msg.points
      → j < arm_dof
      → (new.arm_traj 0).q i j ≡ joint_value msg i j
  published_joint msg old new w i j m k =
      w.joints i j ∙ rw (lt→ltb i (length msg.points) m, lt→ltb j arm_dof k)

  pub published_stamp :
      (msg : JointTrajectory F) (old new : ArmTrajShm F)
      → IsPublished msg old new
      → (i : ℕ) → i < length msg.points
      → (new.arm_traj 0).t i ≡ time_value msg i
  published_stamp msg old new w i m = w.stamps i ∙ rw (lt→ltb i (length msg.points) m)

  refused :
      (msg : JointTrajectory F) (shm : ArmTrajShm F)
      → (length msg.points ≡ 0) ⊎ (arm_traj_max_pts < length msg.points)
      → on_franka_trajectory msg shm ≡ shm
  unfolding on_franka_trajectory
  refused msg shm (inl zero_points) = rw zero_points
  refused msg shm (inr many) =
      rw (lt→ltb arm_traj_max_pts (length msg.points) many, or_true (leb (length msg.points) 0))

  taken :
      (msg : JointTrajectory F) (shm : ArmTrajShm F)
      → 0 < length msg.points
      → length msg.points ≤ arm_traj_max_pts
      → on_franka_trajectory msg shm
        ≡ record shm { arm_traj = update shm.arm_traj 0 (write_trajectory msg (shm.arm_traj 0)) }
  unfolding on_franka_trajectory
  taken msg shm p l =
      let some_points : leb (length msg.points) 0 ≡ false = ground arith in
      rw (some_points, le→ltb arm_traj_max_pts (length msg.points) l)

  published :
      (msg : JointTrajectory F) (shm : ArmTrajShm F)
      → IsPublished msg shm
          (record shm { arm_traj = update shm.arm_traj 0 (write_trajectory msg (shm.arm_traj 0)) })
  unfolding write_trajectory
  published msg shm =
      let w =
        loop-IsWritten msg (record (shm.arm_traj 0) { len = pos (length msg.points) })
          (length msg.points) in
      record {
        count = w.count;
        status = refl;
        joints = λ i j. w.joints i j;
        stamps = λ i. w.stamps i;
        others = λ k p. ground arith;
        holders = refl;
      }

  -- The handler's buffer holds the message.
  pub write_trajectory_cells :
      (msg : JointTrajectory F) (old : ArmTrajBuf F)
      → let b = write_trajectory msg old in
        (b.len ≡ pos (length msg.points))
        × ((i j : ℕ) → i < length msg.points → j < arm_dof → b.q i j ≡ joint_value msg i j)
        × ((i : ℕ) → i < length msg.points → b.t i ≡ time_value msg i)
  write_trajectory_cells msg old =
      let shm : ArmTrajShm F = record { arm_traj = λ _. old; process_num = 0 } in
      let w = published msg shm in
      (
        w.count,
        λ i j l m. published_joint msg shm _ w i j l m,
        λ i l. published_stamp msg shm _ w i l,
      )

  -- A message of no points or of more than 1000 changes nothing. Any other is published whole: its
  -- length, the state PENDING, and for each point the seven joints and the time, with nothing
  -- written behind the last point.
  pub on_franka_trajectory_lem :
      (msg : JointTrajectory F) (shm : ArmTrajShm F)
      → let new = on_franka_trajectory msg shm in
        (((length msg.points ≡ 0) ⊎ (arm_traj_max_pts < length msg.points)) × (new ≡ shm))
        ⊎ ((0 < length msg.points)
            × (length msg.points ≤ arm_traj_max_pts)
            × IsPublished msg shm new)
  on_franka_trajectory_lem msg shm = elim (size_cases (length msg.points)) [
    | inl bad ↦ inl (bad, refused msg shm bad)
    | inr (p, l) ↦ inr (p, l, rw (taken msg shm p l) (published msg shm))
  ]

  pub handled :
      (msg : JointTrajectory F) (shm : ArmTrajShm F)
      → 0 < length msg.points
      → length msg.points ≤ arm_traj_max_pts
      → IsPublished msg shm (on_franka_trajectory msg shm)
  handled msg shm p l = rw (taken msg shm p l) (published msg shm)

  -- From the topic to the arm: a message of 1 to 1000 points whose joints lie within the limits and
  -- whose times are finite, not negative and rising is accepted by the arm's thread, which then
  -- follows just the message's poses and times.
  pub on_franka_trajectory-load :
      (laws : IsIeee F) (msg : JointTrajectory F) (shm : ArmTrajShm F)
      → 0 < length msg.points
      → length msg.points ≤ arm_traj_max_pts
      → ((i : ℕ) → i < length msg.points → IsEntry (joint_value msg) (time_value msg) i)
      → (p : Plan F) × (load ((on_franka_trajectory msg shm).arm_traj 0) ≡ some p)
        × (p.len ≡ length msg.points)
        × ((i j : ℕ) → i < length msg.points → j < arm_dof → p.waypoints i j ≡ joint_value msg i j)
        × ((i : ℕ) → i < length msg.points → p.times i ≡ time_value msg i)
  on_franka_trajectory-load laws msg shm p l h =
      let b = (on_franka_trajectory msg shm).arm_traj 0 in
      let w = handled msg shm p l in
      let n = length msg.points in
      let joints = λ (i j : ℕ) (m : i < n) (k : j < arm_dof). published_joint msg shm _ w i j m k in
      let stamps = λ (i : ℕ) (m : i < n). published_stamp msg shm _ w i m in
      let (plan, loaded, sound, copied) = load_complete laws b n w.count p l λ i m.
        IsEntry-congr laws (joint_value msg) b.q (time_value msg) b.t i
          (λ j k. sym (joints i j m k)) (λ k o. sym (stamps k (omega arith))) (h i m) in
      let same : plan.len ≡ n = pos_injective (sym copied.count ∙ w.count) in
      (
        plan,
        loaded,
        same,
        λ i j m k. copied.joints i j (rw same m) k ∙ joints i j m k,
        λ i m. copied.stamps i (rw same m) ∙ stamps i m,
      )
