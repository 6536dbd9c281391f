-- ===== src/Arm/Execute/Done.antt =====
-- How `executeTrajFromShm` of src/franka_right_arm.cpp leaves the shared memory.
use franka_kistar_r_exp_gwb.Common.{
  ℕ, ◌-◌, ◌∙◌, ◌==◌, ◌≡◌, ◌<◌, refl, Option, none, some, List, [], Array, arith, copy_lem, lt→ltb,
  if◌then◌else◌,
}
use franka_kistar_r_exp_gwb.Double.{Double}
use franka_kistar_r_exp_gwb.Shm.{arm_dof, arm_traj_done, arm_traj_executing}
use franka_kistar_r_exp_gwb.Arm.Robot.{right_arm_index}
use franka_kistar_r_exp_gwb.Arm.Plan.{Plan, load}
use franka_kistar_r_exp_gwb.Arm.Plan.Race.{load_racing}
use franka_kistar_r_exp_gwb.Arm.Execute.{
  Tick, Copying, undisturbed, copied_from, World, Motion, End, finished, thrown, undefined, Outcome,
  returned, raised, broken, traj_state, set_state, conclude, zeros, follow, execute_traj_from_shm,
}

module _ {F : Type 0} ⦃d : Double F⦄ where
  -- The memory that an outcome leaves satisfies `P`.
  abbrev pub Leaves : (World F → Type 0) → Outcome F → Type 0
  Leaves P (returned last sent w) = P w
  Leaves P (raised sent w) = P w
  Leaves P broken = Unit

  abbrev IsDone : World F → Type 0
  IsDone w = traj_state w ≡ arm_traj_done

  conclude-IsDone : (p : Plan F) (r : End × Motion F) → Leaves IsDone (conclude p r)
  unfolding conclude
  conclude-IsDone p (finished, m) = refl
  conclude-IsDone p (thrown, m) = refl
  conclude-IsDone p (undefined, m) = tt

  follow-IsDone :
      (o : Option (Plan F)) (ts : List (Tick F)) (w : World F) → Leaves IsDone (follow o ts w)
  unfolding follow
  follow-IsDone none ts w = refl
  follow-IsDone (some p) ts w = conclude-IsDone p _

  -- Whatever happens, and whatever other processes write meanwhile, the buffer is marked DONE when
  -- the function returns or throws.
  pub execute_traj_from_shm-done :
      (c : Copying F) (ts : List (Tick F)) (w : World F)
      → Leaves (λ v. traj_state v ≡ arm_traj_done) (execute_traj_from_shm c ts w)
  unfolding execute_traj_from_shm
  execute_traj_from_shm-done c ts w = follow-IsDone _ ts _

  load-state :
      (w : World F) (s : ℕ)
      → load ((set_state s w).traj.arm_traj right_arm_index)
        ≡ load (w.traj.arm_traj right_arm_index)
  unfolding load
  load-state w s = refl

  -- A trajectory that does not pass the checks, and that no other process writes during the copy,
  -- is not followed: nothing changes but the state of its buffer, no set point is sent, and the
  -- pose returned is all zeros.
  pub execute_traj_from_shm_refused :
      (ts : List (Tick F)) (w : World F)
      → load (w.traj.arm_traj right_arm_index) ≡ none
      → (v : World F) × (execute_traj_from_shm undisturbed ts w ≡ returned zeros [] v)
        × (v.shm ≡ w.shm)
        × (v.traj.process_num ≡ w.traj.process_num)
        × ((k : ℕ)
            → v.traj.arm_traj k ≡ (
                if k == right_arm_index
                then record (w.traj.arm_traj k) { state = arm_traj_done }
                else w.traj.arm_traj k))
  unfolding execute_traj_from_shm follow load_racing
  execute_traj_from_shm_refused ts w h =
      let e = load-state w arm_traj_executing ∙ h in
      let v = set_state arm_traj_executing w in
      (set_state arm_traj_done v, rw (e, follow), refl, refl, λ k. ground arith)

  -- What holds of the result, if the function returns.
  abbrev pub Returns : (Array F → World F → Type 0) → Outcome F → Type 0
  Returns P (returned last sent w) = P last w
  Returns P (raised sent w) = Unit
  Returns P broken = Unit

  abbrev IsSynced : Plan F → Array F → World F → Type 0
  IsSynced p last v =
      (last ≡ p.waypoints (p.len - 1))
      × ((j : ℕ) → j < arm_dof → v.shm.arm_j_tar right_arm_index j ≡ last j)

  conclude-IsSynced : (p : Plan F) (r : End × Motion F) → Returns (IsSynced p) (conclude p r)
  unfolding conclude
  conclude-IsSynced p (finished, m) = (refl, λ j l. rw (copy_lem arm_dof _ _ j, lt→ltb j arm_dof l))
  conclude-IsSynced p (thrown, m) = tt
  conclude-IsSynced p (undefined, m) = tt

  -- An accepted trajectory that runs to its end returns its last waypoint, and leaves that as the
  -- arm's target.
  pub execute_traj_from_shm_synced :
      (c : Copying F) (ts : List (Tick F)) (w : World F) (p : Plan F)
      → load_racing (copied_from c w) ≡ some p
      → Returns
          (λ last v.
            (last ≡ p.waypoints (p.len - 1))
            × ((j : ℕ) → j < arm_dof → v.shm.arm_j_tar right_arm_index j ≡ last j))
          (execute_traj_from_shm c ts w)
  unfolding execute_traj_from_shm follow
  execute_traj_from_shm_synced c ts w p h = rw h (conclude-IsSynced p _)
