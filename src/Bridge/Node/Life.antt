-- ===== src/Bridge/Node/Life.antt =====
-- What a run of the bridge leaves in the counters of the segments.
use franka_kistar_r_exp_gwb.Common.{
  ℕ, ◌+◌, ◌^◌, Bool, if◌then◌else◌, ◌<◌, ◌≡◌, ◌⊎◌, refl, for_range, true, false, Option, none, some,
  arith, ◌==◌, Bool-cases, inl, inr,
}
use franka_kistar_r_exp_gwb.Double.{Double, nought}
use franka_kistar_r_exp_gwb.Shm.{ShmMsgs, ArmTrajShm}
use franka_kistar_r_exp_gwb.Shm.Attach.{
  clean_start, clean_start_traj, init_shm, delete_shared_memory, init_arm_traj_shm,
  delete_arm_traj_shared_memory,
}
use franka_kistar_r_exp_gwb.Bridge.Node.{Memory, Kernel, construct, destroy, main}

module _ {F : Type 0} ⦃d : Double F⦄ where
  -- The processes that hold the segments, `n` and `m` of them; no segment has none.
  -- Without holders there is a segment only if it could not be removed.
  abbrev pub Held : Bool → Option (ShmMsgs F) → ℕ → Type 0
  Held removable none n = n ≡ 0
  Held removable (some s) n = (s.process_num ≡ n) × ((0 < n) ⊎ (removable ≡ false))

  abbrev pub HeldTraj : Bool → Option (ArmTrajShm F) → ℕ → Type 0
  HeldTraj removable none n = n ≡ 0
  HeldTraj removable (some s) n = (s.process_num ≡ n) × ((0 < n) ⊎ (removable ≡ false))

  destroy-Held :
      (k : Kernel) (w : Memory F) (n m : ℕ)
      → w.msgs.process_num ≡ n + 1
      → w.traj.process_num ≡ m + 1
      → n + 1 < 2 ^ 32
      → m + 1 < 2 ^ 32
      → Held k.removable (destroy k w).0 n × HeldTraj k.traj_removable (destroy k w).1 m
  unfolding destroy delete_shared_memory delete_arm_traj_shared_memory
  destroy-Held k w n m h t a b = elim (Bool-cases k.removable) [
    | inl p ↦ elim (Bool-cases k.traj_removable) [
      | inl q ↦ rw (p, q) (ground arith, ground arith)
      | inr q ↦ rw (p, q) (ground arith, ground arith)
    ]
    | inr p ↦ elim (Bool-cases k.traj_removable) [
      | inl q ↦ rw (p, q) (ground arith, ground arith)
      | inr q ↦ rw (p, q) (ground arith, ground arith)
    ]
  ]

  init_shm_count :
      (s : ShmMsgs F)
      → s.process_num + 1 < 2 ^ 32
      → (t : ShmMsgs F) × (init_shm true true s ≡ some t) × (t.process_num ≡ s.process_num + 1)
  unfolding init_shm clean_start for_range
  init_shm_count s h = elim (Bool-cases (s.process_num == 0)) [
    | inl e ↦ rw e (_, refl, ground arith)
    | inr e ↦ rw e (_, refl, ground arith)
  ]

  init_arm_traj_shm_count :
      (s : ArmTrajShm F)
      → s.process_num + 1 < 2 ^ 32
      → (t : ArmTrajShm F) × (init_arm_traj_shm true true s ≡ some t)
        × (t.process_num ≡ s.process_num + 1)
  unfolding init_arm_traj_shm clean_start_traj for_range
  init_arm_traj_shm_count s h = elim (Bool-cases (s.process_num == 0)) [
    | inl e ↦ rw e (_, refl, ground arith)
    | inr e ↦ rw e (_, refl, ground arith)
  ]

  -- If a positive rate is asked for and both segments are there, the bridge leaves the counters as
  -- it found them and removes a segment that nobody else holds, if the kernel allows it; it returns
  -- 0, or 1 if spinning ends by an exception. The other processes may change the memory meanwhile,
  -- the counters apart.
  pub main-Held :
      (spin : Memory F → Memory F) (returns : Bool) (publish_rate_hz : F) (k : Kernel)
      (w : Memory F)
      → ((v : Memory F)
          → ((spin v).msgs.process_num ≡ v.msgs.process_num)
            × ((spin v).traj.process_num ≡ v.traj.process_num))
      → d.le publish_rate_hz nought ≡ false
      → k.got ≡ true
      → k.attached ≡ true
      → k.traj_got ≡ true
      → k.traj_attached ≡ true
      → w.msgs.process_num + 1 < 2 ^ 32
      → w.traj.process_num + 1 < 2 ^ 32
      → let r = main spin returns publish_rate_hz k w in
        (r.0 ≡ some (if returns then 0 else 1))
        × Held k.removable r.1.0 w.msgs.process_num
        × HeldTraj k.traj_removable r.1.1 w.traj.process_num
  unfolding main construct destroy
  main-Held spin returns rate k w keeps h g g' t t' a b =
      let (s, es, cs) = init_shm_count w.msgs a in
      let (u, et, ct) = init_arm_traj_shm_count w.traj b in
      let v : Memory F = record { msgs = s; traj = u } in
      let (x, y) =
        destroy-Held k (spin v) w.msgs.process_num w.traj.process_num (rw ((keeps v).0) cs)
          (rw ((keeps v).1) ct) a b in
      rw (h, g, g', t, t', es, et) (refl, x, y)

  -- A rate that is not positive is refused before the memory is touched; if the trajectory segment
  -- is refused, the process exits and leaves the other counter one too high.
  pub main_refused :
      (spin : Memory F → Memory F) (returns : Bool) (publish_rate_hz : F) (k : Kernel)
      (w : Memory F)
      → k.got ≡ true
      → k.attached ≡ true
      → w.msgs.process_num + 1 < 2 ^ 32
      → let r = main spin returns publish_rate_hz k w in
        ((d.le publish_rate_hz nought ≡ true) × (r ≡ (some 1, (some w.msgs, some w.traj))))
        ⊎ ((k.traj_got ≡ true) × (k.traj_attached ≡ true))
        ⊎ ((r.0 ≡ none) × Held k.removable r.1.0 (w.msgs.process_num + 1) × (r.1.1 ≡ some w.traj))
  unfolding main construct init_arm_traj_shm
  main_refused spin returns rate k w g a h = elim (Bool-cases (d.le rate nought)) [
    | inl bad ↦ inl (bad, rw bad refl)
    | inr fine ↦
        let (s, es, cs) = init_shm_count w.msgs h in
        elim (Bool-cases k.traj_got) [
          | inl p ↦ elim (Bool-cases k.traj_attached) [
            | inl q ↦ inr (inl (p, q))
            | inr q ↦ inr (inr (rw (fine, g, a, es, p, q) (refl, (cs, inl (omega arith)), refl)))
          ]
          | inr p ↦ inr (inr (rw (fine, g, a, es, p) (refl, (cs, inl (omega arith)), refl)))
        ]
  ]
