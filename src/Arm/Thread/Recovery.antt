-- ===== src/Arm/Thread/Recovery.antt =====
-- What `franka_control_thread_R` (src/franka_right_arm.cpp) does with trajectories that fail.
use franka_kistar_r_exp_gwb.Common.{
  ℕ, ◌||◌, ◌⊎◌, ◌≡◌, ◌≢◌, ◌<◌, refl, sym, ap, ap₂, ◌∙◌, Bool, true, false, none, some, List, [],
  ◌∷◌, Array, arith, copy, ◌==◌, if◌then◌else◌, Bool-cases, Option-cases, inl, inr,
}
use franka_kistar_r_exp_gwb.Common.Int.{pos}
use franka_kistar_r_exp_gwb.Double.{Double, IsIeee, ◌≺◌, nought}
use franka_kistar_r_exp_gwb.Shm.{
  ArmTrajBuf, ShmMsgs, arm_dof, arm_traj_pending, arm_traj_executing, arm_traj_done, arm_traj_idle,
}
use franka_kistar_r_exp_gwb.Arm.Robot.{RobotState, right_arm_index, update_right_arm_state_to_shm}
use franka_kistar_r_exp_gwb.Arm.Limits.{is_target_changed, target_eps, sanitize_speed_factor}
use franka_kistar_r_exp_gwb.Arm.Plan.{load}
use franka_kistar_r_exp_gwb.Arm.Execute.{
  World, Outcome, returned, raised, broken, traj_state, zeros, undisturbed, mark_trajectory_done,
}
use franka_kistar_r_exp_gwb.Arm.Execute.Done.{execute_traj_from_shm_refused}
use franka_kistar_r_exp_gwb.Arm.Thread.{
  Round, PointToPoint, Thread, Step, next, failed, crashed, read_target, read_speed, observe,
  iterate, run_rounds, connect, point_to_point_mode, trajectory_mode, settle,
}
use franka_kistar_r_exp_gwb.Arm.Thread.Quiet.{iterate_moves}

module _ {F : Type 0} ⦃d : Double F⦄ where
  -- What holds of the memory, if the round fails.
  abbrev pub Fails : (World F → Type 0) → Step F → Type 0
  Fails P (next t) = Unit
  Fails P (failed w) = P w
  Fails P crashed = Unit

  settle-done :
      (r : Round F) (t : Thread F) → Fails (λ w. traj_state w ≡ arm_traj_done) (settle r t)
  unfolding settle
  settle-done r t = elim (Option-cases r.after) [
    | inl e ↦ rw (e, settle) refl
    | inr (st, e) ↦ rw (e, settle) tt
  ]

  move-done :
      (go : Bool) (r : Round F) (u : Thread F) (w : World F)
      → Fails
          (λ v. traj_state v ≡ arm_traj_done)
          (if go then settle r u else failed (mark_trajectory_done w))
  move-done true r u w = settle-done r u
  move-done false r u w = refl

  trajectory_mode-done :
      (r : Round F) (m : List (PointToPoint F)) (o : Outcome F)
      → Fails (λ w. traj_state w ≡ arm_traj_done) (trajectory_mode r m o)
  unfolding trajectory_mode
  trajectory_mode-done r m (returned last sent w) = settle-done r _
  trajectory_mode-done r m (raised sent w) = refl
  trajectory_mode-done r m broken = tt

  point_to_point_mode-done :
      (c : F) (r : Round F) (t : Thread F)
      → Fails (λ w. traj_state w ≡ arm_traj_done) (point_to_point_mode c r t)
  unfolding point_to_point_mode
  point_to_point_mode-done c r t =
      elim (Bool-cases (is_target_changed (read_target t.world t.last_target) t.last_target)) [
        | inl new ↦ rw new (move-done r.moves r _ t.world)
        | inr old ↦ rw old tt
      ]

  Fails-map :
      {P Q : World F → Type 0} (s : Step F) → ((w : World F) → P w → Q w) → Fails P s → Fails Q s
  Fails-map (next t) f p = tt
  Fails-map (failed w) f p = f w p
  Fails-map crashed f p = tt

  pub iterate-done :
      (c : F) (r : Round F) (t : Thread F)
      → Fails (λ w. traj_state w ≡ arm_traj_done) (iterate c r t)
  unfolding iterate
  iterate-done c r t = elim (Option-cases r.before) [
    | inl e ↦ rw (e, iterate) refl
    | inr (st, e) ↦
        rw (e, iterate)
          (elim (Bool-cases (traj_state (observe st t.world) == arm_traj_pending)) [
            | inl p ↦ rw p (trajectory_mode-done r t.motions _)
            | inr p ↦ rw p (point_to_point_mode-done c r _)
          ])
  ]

  pub connect_idle :
      (w : World F) (st : RobotState F)
      → traj_state w ≡ arm_traj_done
      → traj_state (connect st w).world ≡ arm_traj_idle
  unfolding connect
  connect_idle w st h = ground (arith, h)

  pub connect_pending :
      (w : World F) (st : RobotState F)
      → traj_state w ≡ arm_traj_pending
      → (connect st w).world.traj ≡ w.traj
  unfolding connect
  connect_pending w st h = rw h refl

  -- A round that fails by an exception leaves the trajectory buffer DONE, also if a trajectory was
  -- pending or came in meanwhile. What the next connection does depends on the buffer that it
  -- finds, which other processes may have written by then: one that is PENDING or EXECUTING is left
  -- alone, any other becomes IDLE and empty.
  pub iterate-Fails :
      (config_speed : F) (r : Round F) (t : Thread F) (st : RobotState F) (v : World F)
      → let u = (connect st v).world in
        Fails (λ w. traj_state w ≡ arm_traj_done) (iterate config_speed r t)
        × ((((traj_state v ≡ arm_traj_pending) ⊎ (traj_state v ≡ arm_traj_executing))
              × (u.traj ≡ v.traj))
            ⊎ ((traj_state v ≢ arm_traj_pending)
                × (traj_state v ≢ arm_traj_executing)
                × (traj_state u ≡ arm_traj_idle)
                × ((u.traj.arm_traj right_arm_index).len ≡ pos 0)))
  unfolding connect
  iterate-Fails config_speed r t st v = (
    iterate-done config_speed r t,
    elim (Bool-cases (traj_state v == arm_traj_pending || traj_state v == arm_traj_executing)) [
      | inl e ↦ inl (ground arith, rw e refl)
      | inr e ↦ inr (ground arith, ground arith, rw e refl, rw e refl)
    ],
  )

one-ne-three : ◌≡◌ {A = ℕ} 1 3 → ⊥
one-ne-three h = omega arith

-- The effect of a trajectory that fails the checks.
module _ {F : Type 0} ⦃d : Double F⦄ (laws : IsIeee F) where
  round_refused :
      (c : F) (r : Round F) (t : Thread F) (st later : RobotState F)
      → r.before ≡ some st
      → r.after ≡ some later
      → traj_state t.world ≡ arm_traj_pending
      → r.copying ≡ undisturbed
      → load (t.world.traj.arm_traj right_arm_index) ≡ none
      → (u : Thread F) × (iterate c r t ≡ next u)
        × (u.last_target ≡ zeros)
        × (u.motions ≡ t.motions)
        × (traj_state u.world ≡ arm_traj_done)
        × (u.world.shm.arm_j_tar ≡ t.world.shm.arm_j_tar)
        × (u.world.shm.arm_speed_factor ≡ t.world.shm.arm_speed_factor)
  unfolding iterate trajectory_mode settle update_right_arm_state_to_shm
  round_refused c r t st later e e' pending alone bad =
      let (v, out, same, _, bufs) =
        execute_traj_from_shm_refused r.course (observe st t.world) bad in
      (
        record { world = observe later v; last_target = zeros; motions = t.motions },
        rw (e, iterate) (rw (pending, alone) (rw (out, trajectory_mode) (rw (e', settle)))),
        refl,
        refl,
        ap (λ (b : ArmTrajBuf F). b.state) (bufs 0),
        ap (λ (s : ShmMsgs F). s.arm_j_tar) same,
        ap (λ (s : ShmMsgs F). s.arm_speed_factor) same,
      )

  -- A pending trajectory that fails the checks, and that nobody writes meanwhile, is dropped
  -- without a motion, but the round after it moves the arm to the point-to-point target if some
  -- joint's target is farther than the tolerance from zero, although nobody changed that target.
  pub run_rounds_refused_moves :
      (config_speed : F) (r₁ r₂ : Round F) (t : Thread F) (s₁ s₂ s₃ s₄ : RobotState F)
      → r₁.before ≡ some s₁
      → r₁.after ≡ some s₂
      → r₂.before ≡ some s₃
      → r₂.moves ≡ true
      → r₂.after ≡ some s₄
      → traj_state t.world ≡ arm_traj_pending
      → r₁.copying ≡ undisturbed
      → load (t.world.traj.arm_traj right_arm_index) ≡ none
      → (j : ℕ) → j < arm_dof
      → target_eps ≺ d.abs (d.sub (t.world.shm.arm_j_tar right_arm_index j) nought)
      → (u : Thread F) × (motion : PointToPoint F) × (run_rounds config_speed (r₁ ∷ r₂ ∷ []) t
          ≡ next u)
        × (u.motions ≡ motion ∷ t.motions)
        × (motion.target ≡ copy arm_dof (t.world.shm.arm_j_tar right_arm_index) zeros)
        × (motion.speed ≡ sanitize_speed_factor (read_speed t.world) config_speed)
  unfolding run_rounds
  run_rounds_refused_moves c r₁ r₂ t s₁ s₂ s₃ s₄ b₁ a₁ b₂ go a₂ pending alone bad j l far =
      let (u, first, last, same, done, tar, spd) =
        round_refused c r₁ t s₁ s₂ b₁ a₁ pending alone bad in
      let idle : traj_state u.world ≢ arm_traj_pending = λ h. one-ne-three (sym h ∙ done) in
      let far' : target_eps
          ≺ d.abs (d.sub (u.world.shm.arm_j_tar right_arm_index j) (u.last_target j)) =
        rw (tar, last) far in
      let second = iterate_moves laws c r₂ u s₃ s₄ b₂ go a₂ idle j l far' in
      let target = read_target u.world u.last_target in
      let motion : PointToPoint F = record {
        speed = sanitize_speed_factor (read_speed u.world) c;
        target = target;
      } in
      let moved : Thread F = record {
        world = observe s₄ (observe s₃ u.world);
        last_target = target;
        motions = motion ∷ u.motions;
      } in
      (
        moved,
        motion,
        rw (first, run_rounds) (rw (second, run_rounds)),
        ap (λ (m : List (PointToPoint F)). motion ∷ m) same,
        ap₂ (λ (a : Array (Array F)) (b : Array F). copy arm_dof (a right_arm_index) b) tar last,
        ap (λ (a : Array F). sanitize_speed_factor (a right_arm_index) c) spd,
      )
