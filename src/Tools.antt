-- ===== src/Tools.antt =====
-- scripts/reset_arm_traj.cpp and scripts/inspect_arm_traj.cpp.
use franka_kistar_r_exp_gwb.Common.{
  ℕ, ◌-◌, ◌<◌, ◌≤◌, ◌≡◌, refl, Bool, true, ◌&&◌, Option, none, some, List, tabulate,
  tabulate_from-congr, sym, arith, update, for_range, if◌then◌else◌,
}
use franka_kistar_r_exp_gwb.Common.Int.{ℤ, pos, pos_part, ◌-ℤ◌, ltb_ℤ, leb_ℤ}
use franka_kistar_r_exp_gwb.Double.{Double, IsIeee, nought}
use franka_kistar_r_exp_gwb.Shm.{ArmTrajShm, arm_num, arm_dof, arm_traj_idle, arm_traj_max_pts}
use franka_kistar_r_exp_gwb.Arm.Plan.{Plan, load}
use franka_kistar_r_exp_gwb.Arm.Plan.Check.{load_sound}

-- What the inspecting tool prints of a buffer whose length is in range.
pub record Ends (F : Type 0) : Type 0 where
  pub first_t : F
  pub last_t : F
  pub first_q : List F
  pub last_q : List F

pub record Report (F : Type 0) : Type 0 where
  pub process_num : ℕ
  pub state : ℕ
  pub len : ℤ
  pub ends : Option (Ends F)

in_range :
    (n : ℕ)
    → 0 < n
    → n ≤ arm_traj_max_pts
    → (ltb_ℤ (pos 0) (pos n) && leb_ℤ (pos n) (pos arm_traj_max_pts)) ≡ true
in_range n p h = ground arith

last_index : (n : ℕ) → 0 < n → pos_part (pos n -ℤ pos 1) ≡ n - 1
unfolding ◌-ℤ◌
last_index n h = ground arith

module _ {F : Type 0} ⦃d : Double F⦄ where
  -- The loop of `main`.
  unfoldable pub reset_arm_traj : ArmTrajShm F → ArmTrajShm F
  unfolding for_range
  reset_arm_traj shm =
      for_range arm_num 0
        (λ arm s. record s {
          arm_traj =
              update s.arm_traj arm
                (record { q = λ _ _. nought; t = λ _. nought; len = pos 0; state = arm_traj_idle });
        })
        shm

  -- The reset leaves the arm's buffer IDLE and with nothing that the arm's thread would follow, all
  -- its entries zero; it keeps the number of attached processes, and a second reset changes
  -- nothing.
  pub reset_arm_traj_lem :
      (shm : ArmTrajShm F)
      → let s = reset_arm_traj shm in
        ((s.arm_traj 0).state ≡ arm_traj_idle)
        × (load (s.arm_traj 0) ≡ none)
        × ((i j : ℕ) → (s.arm_traj 0).q i j ≡ nought)
        × ((i : ℕ) → (s.arm_traj 0).t i ≡ nought)
        × (s.process_num ≡ shm.process_num)
        × ((k : ℕ) → (reset_arm_traj s).arm_traj k ≡ s.arm_traj k)
  unfolding reset_arm_traj load
  reset_arm_traj_lem shm = (refl, refl, λ i j. refl, λ i. refl, refl, λ k. ground arith)

  -- `main` of the resetting tool: its exit code and what the segment then holds.
  unfoldable pub reset_main : Bool → Bool → ArmTrajShm F → ℕ × ArmTrajShm F
  unfolding reset_arm_traj
  reset_main got attached shm =
      if got then if attached then (0, reset_arm_traj shm) else (1, shm) else (1, shm)

  -- What `main` of the inspecting tool prints: the fields, and of a buffer whose length is in range
  -- the first and the last time and pose.
  unfoldable pub inspect : Bool → Bool → ArmTrajShm F → ℕ × Option (Report F)
  unfolding ◌-ℤ◌
  inspect got attached shm =
      let traj = shm.arm_traj 0 in
      let last = pos_part (traj.len -ℤ pos 1) in
      let ends : Option (Ends F) =
        if ltb_ℤ (pos 0) traj.len && leb_ℤ traj.len (pos arm_traj_max_pts)
        then some (record {
          first_t = traj.t 0;
          last_t = traj.t last;
          first_q = tabulate arm_dof (traj.q 0);
          last_q = tabulate arm_dof (traj.q last);
        })
        else none in
      if got
      then if attached
        then (
          0,
          some (record {
            process_num = shm.process_num;
            state = traj.state;
            len = traj.len;
            ends = ends;
          }),
        )
        else (1, none)
      else (1, none)

  -- The report of a segment with `n` waypoints.
  abbrev pub shown : ArmTrajShm F → ℕ → F → F → List F → List F → Report F
  shown shm n first_t last_t first_q last_q = record {
    process_num = shm.process_num;
    state = (shm.arm_traj 0).state;
    len = pos n;
    ends = some (record { first_t = first_t; last_t = last_t; first_q = first_q; last_q = last_q });
  }

  -- The exit code 0 and the report.
  abbrev pub success : Report F → ℕ × Option (Report F)
  success r = (0, some r)

  shown_same :
      (shm : ArmTrajShm F) {n : ℕ} {a b c e : F} {l m o u : List F}
      → a ≡ c
      → b ≡ e
      → l ≡ o
      → m ≡ u
      → success (shown shm n a b l m) ≡ success (shown shm n c e o u)
  shown_same shm p q r t = rw (p, q, r, t) refl

  -- Of a buffer that the arm would follow, the inspecting tool shows the first and the last
  -- waypoint of the plan.
  pub inspect-load :
      (laws : IsIeee F) (shm : ArmTrajShm F) (plan : Plan F)
      → load (shm.arm_traj 0) ≡ some plan
      → inspect true true shm
        ≡ success (
            shown shm plan.len
              (plan.times 0)
              (plan.times (plan.len - 1))
              (tabulate arm_dof (plan.waypoints 0))
              (tabulate arm_dof (plan.waypoints (plan.len - 1))))
  unfolding inspect
  inspect-load laws shm plan h =
      let (sound, copied) = load_sound laws (shm.arm_traj 0) plan h in
      let last = last_index plan.len sound.nonempty in
      let end' : plan.len - 1 < plan.len = let p = sound.nonempty in omega arith in
      rw (copied.count, in_range plan.len sound.nonempty sound.capped, last)
        (shown_same shm (sym (copied.stamps 0 sound.nonempty))
          (sym (copied.stamps (plan.len - 1) end'))
          (tabulate_from-congr arm_dof 0 _ _ (λ k a b. sym (copied.joints 0 k sound.nonempty b)))
          (tabulate_from-congr arm_dof 0 _ _
            (λ k a b. sym (copied.joints (plan.len - 1) k end' b))))
