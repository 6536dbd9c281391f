-- ===== src/Arm/Thread/Quiet.antt =====
-- When the point-to-point mode of `franka_control_thread_R` (src/franka_right_arm.cpp) moves the
-- arm.
use franka_kistar_r_exp_gwb.Common.{
  ℕ, ◌≡◌, ◌≢◌, ◌<◌, inl, inr, sym, ap, ◌∙◌, true, false, not, some, ◌∷◌, Array, arith, copy_lem,
  lt→ltb, for_all, for_all_complete, for_all_sound, ◌==◌, Bool-cases, true-ne-false,
}
use franka_kistar_r_exp_gwb.Common.Int.{pos}
use franka_kistar_r_exp_gwb.Double.{Double, IsIeee, ◌≼◌, ◌≺◌, IsFinite, nought}
use franka_kistar_r_exp_gwb.Shm.{arm_dof, arm_traj_pending}
use franka_kistar_r_exp_gwb.Arm.Robot.{RobotState, right_arm_index, update_right_arm_state_to_shm}
use franka_kistar_r_exp_gwb.Arm.Limits.{is_target_changed, target_eps, sanitize_speed_factor}
use franka_kistar_r_exp_gwb.Arm.Execute.{World, traj_state}
use franka_kistar_r_exp_gwb.Arm.Thread.{
  Round, PointToPoint, Thread, next, read_target, read_speed, observe, iterate, connect,
  point_to_point_mode, settle,
}

module _ {F : Type 0} ⦃d : Double F⦄ (laws : IsIeee F) where
  open laws use {lt_of_le_lt, lt_irrefl, abs_sub_self, of_nano_mono, le_trans}

  -- A finite number does not differ from itself by more than the tolerance.
  self_close : (x : F) → IsFinite x → d.lt target_eps (d.abs (d.sub x x)) ≡ false
  self_close x f = elim (Bool-cases (d.lt target_eps (d.abs (d.sub x x)))) [
    | inl far ↦
        let a = d.abs (d.sub x x) in
        let small : a ≼ target_eps =
          le_trans a nought target_eps (abs_sub_self x f)
            (of_nano_mono (pos 0) (pos 100_000) (omega arith)) in
        absurd (true-ne-false (sym (lt_of_le_lt a target_eps a small far) ∙ lt_irrefl a))
    | inr h ↦ h
  ]

  unchanged :
      (a b : Array F)
      → ((j : ℕ) → j < arm_dof → IsFinite (b j))
      → ((j : ℕ) → j < arm_dof → a j ≡ b j)
      → is_target_changed a b ≡ false
  unfolding is_target_changed
  unchanged a b f e = ap not (
      for_all_complete arm_dof 0 (λ i. not (d.lt target_eps (d.abs (d.sub (a i) (b i)))))
        λ k _ l. rw (e k l, self_close (b k) (f k l)))

  changed :
      (a b : Array F) (j : ℕ)
      → j < arm_dof
      → target_eps ≺ d.abs (d.sub (a j) (b j))
      → is_target_changed a b ≡ true
  unfolding is_target_changed
  changed a b j l far =
      let test = λ (i : ℕ). not (d.lt target_eps (d.abs (d.sub (a i) (b i)))) in
      elim (Bool-cases (for_all arm_dof 0 test)) [
        | inl all ↦
            let pass = for_all_sound arm_dof 0 test all j (omega arith) l in absurd (ground arith)
        | inr h ↦ ap not h
      ]

  -- A round in which the target is the pose last reached, and no trajectory is pending, moves
  -- nothing: it only records the robot's state.
  iterate_quiet :
      (config_speed : F) (r : Round F) (t : Thread F) (st : RobotState F)
      → r.before ≡ some st
      → traj_state t.world ≢ arm_traj_pending
      → ((j : ℕ) → j < arm_dof → IsFinite (t.last_target j))
      → ((j : ℕ) → j < arm_dof → t.world.shm.arm_j_tar right_arm_index j ≡ t.last_target j)
      → iterate config_speed r t ≡ next (record t { world = observe st t.world })
  unfolding iterate point_to_point_mode update_right_arm_state_to_shm
  iterate_quiet config_speed r t st e idle f same =
      let busy : (traj_state t.world == arm_traj_pending) ≡ false = ground (arith, idle) in
      let quiet : is_target_changed (read_target t.world t.last_target) t.last_target ≡ false =
        unchanged (read_target t.world t.last_target) t.last_target f
          λ j l. rw (copy_lem arm_dof _ _ j, lt→ltb j arm_dof l) (same j l) in
      rw (e, iterate) (rw (busy, quiet))

  -- After a connection the target is the measured pose, so the first round moves nothing unless a
  -- trajectory is pending.
  pub connect_quiet :
      (config_speed : F) (r : Round F) (st later : RobotState F) (w : World F)
      → r.before ≡ some later
      → traj_state w ≢ arm_traj_pending
      → ((j : ℕ) → j < arm_dof → IsFinite (st.q j))
      → iterate config_speed r (connect st w)
        ≡ next (record (connect st w) { world = observe later (connect st w).world })
  unfolding connect update_right_arm_state_to_shm
  connect_quiet config_speed r st later w e idle f =
      iterate_quiet config_speed r (connect st w) later e (kept w idle) f
        λ j l. rw (copy_lem arm_dof _ _ j, lt→ltb j arm_dof l)
    where
      kept :
          (w : World F)
          → traj_state w ≢ arm_traj_pending
          → traj_state (connect st w).world ≢ arm_traj_pending
      kept w idle = ground (arith, idle)

  -- With a new target and no pending trajectory the round moves the arm there, at the sanitized
  -- speed factor.
  pub iterate_moves :
      (config_speed : F) (r : Round F) (t : Thread F) (st later : RobotState F)
      → r.before ≡ some st
      → r.moves ≡ true
      → r.after ≡ some later
      → traj_state t.world ≢ arm_traj_pending
      → (j : ℕ) → j < arm_dof
      → target_eps ≺ d.abs (d.sub (t.world.shm.arm_j_tar right_arm_index j) (t.last_target j))
      → let target = read_target t.world t.last_target in
        let motion : PointToPoint F = record {
          speed = sanitize_speed_factor (read_speed t.world) config_speed;
          target = target;
        } in
        iterate config_speed r t
        ≡ next (record {
          world = observe later (observe st t.world);
          last_target = target;
          motions = motion ∷ t.motions;
        })
  unfolding iterate point_to_point_mode update_right_arm_state_to_shm settle
  iterate_moves config_speed r t st later e go e' idle j l far =
      let busy : (traj_state t.world == arm_traj_pending) ≡ false = ground (arith, idle) in
      let new : is_target_changed (read_target t.world t.last_target) t.last_target ≡ true =
        changed (read_target t.world t.last_target) t.last_target j l (
          rw
            (
              copy_lem arm_dof (t.world.shm.arm_j_tar right_arm_index) t.last_target j,
              lt→ltb j arm_dof l,
            )
            far) in
      rw (e, iterate) (rw (busy, new, go) (rw (e', settle)))
