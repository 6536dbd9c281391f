-- ===== src/System/Copy.antt =====
-- `on_franka_trajectory` (ros2/kistar_hand_bridge/src/kistar_hand_bridge_node.cpp) writes the
-- buffer while `executeTrajFromShm` (src/franka_right_arm.cpp) copies it. Each of the two processes
-- makes its accesses in program order, and memory is sequentially consistent.
use franka_kistar_r_exp_gwb.Common.{
  ℕ, zero, suc, ◌+◌, ◌-◌, ◌*◌, ◌≤◌, ◌<◌, ◌≡◌, ◌⊎◌, inl, inr, refl, ap, sym, subst, ◌∙◌, Option,
  some, Array, List, [], ◌∷◌, arith, length, ltb, ltb→lt, lt→ltb, le→ltb, Bool-cases, if◌then◌else◌,
}
use franka_kistar_r_exp_gwb.Common.Int.{pos}
use franka_kistar_r_exp_gwb.Double.{Double, IsIeee, ◌≺◌}
use franka_kistar_r_exp_gwb.Shm.{ArmTrajBuf, arm_dof, arm_traj_max_pts}
use franka_kistar_r_exp_gwb.Arm.Plan.{Plan, IsSound, IsEntry, IsCopy}
use franka_kistar_r_exp_gwb.Arm.Plan.Check.{load_complete, IsEntry-congr}
use franka_kistar_r_exp_gwb.Arm.Plan.Race.{
  joint_read, time_read, seen, load_racing, load_racing_sound,
}
use franka_kistar_r_exp_gwb.Bridge.Trajectory.{
  JointTrajectory, joint_value, time_value, write_trajectory,
}
use franka_kistar_r_exp_gwb.Bridge.Trajectory.Buffer.{write_trajectory_cells, pos_injective}
use franka_kistar_r_exp_gwb.Bridge.Trajectory.Stores.{
  Store, take, perform_all, stores, perform_all-stores, IsMixed, partly_written-IsMixed,
}
pub mod Torn

module _ {F : Type 0} ⦃d : Double F⦄ where
  -- The buffer at each read, if the bridge has made `done k` of its stores by the read `k`.
  abbrev pub meanwhile : JointTrajectory F → ArmTrajBuf F → (ℕ → ℕ) → ℕ → ArmTrajBuf F
  meanwhile msg old done k = perform_all (take (done k) (stores msg)) old

  mixed_value :
      {x y a b : F} {P : Type 0} → x ≡ y → (y ≡ a) ⊎ (P × (y ≡ b)) → (x ≡ a) ⊎ (P × (x ≡ b))
  mixed_value e (inl h) = inl (e ∙ h)
  mixed_value e (inr (p, h)) = inr (p, e ∙ h)

  -- If the bridge writes a message during the copy, at whatever moments, an accepted trajectory is
  -- safe to follow as an accepted one always is, and each of its values is that of the old
  -- trajectory or that of the message's point with its index, which the message then has.
  pub load_racing_mixed :
      (laws : IsIeee F) (msg : JointTrajectory F) (old : ArmTrajBuf F) (done : ℕ → ℕ) (p : Plan F)
      → load_racing (meanwhile msg old done) ≡ some p
      → IsSound p
        × ((old.len ≡ pos p.len) ⊎ (p.len ≡ length msg.points))
        × ((i j : ℕ)
            → i < p.len
            → j < arm_dof
            → (p.waypoints i j ≡ old.q i j)
              ⊎ ((i < length msg.points) × (p.waypoints i j ≡ joint_value msg i j)))
        × ((i : ℕ)
            → i < p.len
            → (p.times i ≡ old.t i) ⊎ ((i < length msg.points) × (p.times i ≡ time_value msg i)))
  load_racing_mixed laws msg old done p h =
      let (sound, count, joints, stamps) = load_racing_sound laws (meanwhile msg old done) p h in
      let mixed = λ (k : ℕ). partly_written-IsMixed msg old (done k) in
      (
        sound,
        counted count (mixed 0).count,
        λ i j l m. mixed_value (joints i j l m) ((mixed (joint_read i j)).joints i j),
        λ i l. mixed_value (stamps i l) ((mixed (time_read i)).stamps i),
      )
    where
      counted :
          (meanwhile msg old done 0).len ≡ pos p.len
          → ((meanwhile msg old done 0).len ≡ old.len)
            ⊎ ((meanwhile msg old done 0).len ≡ pos (length msg.points))
          → (old.len ≡ pos p.len) ⊎ (p.len ≡ length msg.points)
      counted e (inl h) = inl (sym h ∙ e)
      counted e (inr h) = inr (ground arith)

  take_all : (n : ℕ) (xs : List (Store F)) → length xs ≤ n → take n xs ≡ xs
  take_all zero [] h = refl
  take_all zero (x ∷ xs) h = absurd (omega arith)
  take_all (suc n) [] h = refl
  take_all (suc n) (x ∷ xs) h = ap (λ ys. x ∷ ys) (take_all n xs (omega arith))

  pub all_stored :
      (msg : JointTrajectory F) (old : ArmTrajBuf F) (n : ℕ)
      → length (stores msg) ≤ n
      → perform_all (take n (stores msg)) old ≡ write_trajectory msg old
  all_stored msg old n h =
      ap (λ ss. perform_all ss old) (take_all n (stores msg) h) ∙ perform_all-stores msg old

  pub none_stored :
      (msg : JointTrajectory F) (old : ArmTrajBuf F) (n : ℕ)
      → n ≡ 0
      → perform_all (take n (stores msg)) old ≡ old
  unfolding perform_all
  none_stored msg old n h = rw h refl

  -- All reads see the same buffer.
  steady :
      (laws : IsIeee F) (mem : ℕ → ArmTrajBuf F) (buf : ArmTrajBuf F) (p : Plan F)
      → load_racing mem ≡ some p
      → ((k : ℕ) → k ≤ 8 * p.len → mem k ≡ buf)
      → IsCopy buf p
  steady laws mem buf p h same =
      let (sound, count, joints, stamps) = load_racing_sound laws mem p h in
      record {
        count = sym (ap (λ (b : ArmTrajBuf F). b.len) (same 0 (omega arith))) ∙ count;
        joints = λ i j l m.
            joints i j l m
            ∙ ap (λ (b : ArmTrajBuf F). b.q i j) (same (joint_read i j) (omega arith));
        stamps =
            λ i l. stamps i l ∙ ap (λ (b : ArmTrajBuf F). b.t i) (same (time_read i) (omega arith));
      }

  -- A copy during which the bridge makes no store is a copy of the old trajectory or of the whole
  -- message.
  load_racing_apart :
      (laws : IsIeee F) (msg : JointTrajectory F) (old : ArmTrajBuf F) (done : ℕ → ℕ) (p : Plan F)
      → load_racing (meanwhile msg old done) ≡ some p
      → ((k l : ℕ) → k ≤ l → done k ≤ done l)
      → (done (8 * p.len) ≡ 0) ⊎ (length (stores msg) ≤ done 0)
      → IsCopy old p ⊎ IsCopy (write_trajectory msg old) p
  load_racing_apart laws msg old done p h mono (inl before) = inl (
      steady laws (meanwhile msg old done) old p h
        λ k l. none_stored msg old (done k) (omega (arith, mono k (8 * p.len) l)))
  load_racing_apart laws msg old done p h mono (inr after) = inr (
      steady laws (meanwhile msg old done) (write_trajectory msg old) p h
        λ k l. all_stored msg old (done k) (omega (arith, mono 0 k (omega arith))))
