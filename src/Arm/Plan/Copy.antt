-- ===== src/Arm/Plan/Copy.antt =====
-- The copying loop of `executeTrajFromShm` in src/franka_right_arm.cpp: it goes through exactly
-- while the entries pass, and then has copied them.
use franka_kistar_r_exp_gwb.Common.{
  ℕ, zero, suc, ◌+◌, ◌-◌, ◌<◌, ◌≡◌, refl, subst, inl, inr, Bool, true, false, not, none, some,
  Array, arith, update, copy, copy_lem, for_range, for_all, ==_refl, ◌&&◌, if◌then◌else◌,
  Bool-cases,
}
use franka_kistar_r_exp_gwb.Double.{Double}
use franka_kistar_r_exp_gwb.Shm.{ArmTrajBuf, arm_dof}
use franka_kistar_r_exp_gwb.Arm.Limits.{validate_waypoint}
use franka_kistar_r_exp_gwb.Arm.Plan.{time_is_bad, load_entry, load_from}

module _ {F : Type 0} ⦃d : Double F⦄ where
  -- The verdict on one entry, read off the shared buffer.
  abbrev pub entry_passes : ArmTrajBuf F → ℕ → Bool
  entry_passes buf i = validate_waypoint (buf.q i) && not (time_is_bad buf.t i)

  validate_waypoint-copy :
      (q w : Array F) → validate_waypoint (copy arm_dof q w) ≡ validate_waypoint q
  unfolding validate_waypoint for_all copy for_range
  validate_waypoint-copy q w = refl

  time_is_bad-update :
      (buf : ArmTrajBuf F) (i : ℕ) (t : Array F)
      → (0 < i → t (i - 1) ≡ buf.t (i - 1))
      → time_is_bad (update t i (buf.t i)) i ≡ time_is_bad buf.t i
  unfolding time_is_bad
  time_is_bad-update buf i t h = ground arith

  abbrev stored_q : ArmTrajBuf F → ℕ → Array (Array F) → Array (Array F)
  stored_q buf i w = update w i (copy arm_dof (buf.q i) (w i))

  load_entry_lem :
      (buf : ArmTrajBuf F) (i : ℕ) (w : Array (Array F)) (t : Array F)
      → (0 < i → t (i - 1) ≡ buf.t (i - 1))
      → load_entry buf.q buf.t i w t
        ≡ (if entry_passes buf i then some (stored_q buf i w, update t i (buf.t i)) else none)
  unfolding load_entry
  load_entry_lem buf i w t h =
      rw (==_refl i, validate_waypoint-copy (buf.q i) (w i), time_is_bad-update buf i t h)
        (ground arith)

  -- The copy so far: the entries below `upto` are those of the buffer.
  pub record IsPart (buf : ArmTrajBuf F) (upto : ℕ) (r : Array (Array F) × Array F) : Type 0 where
    pub joints : (k j : ℕ) → k < upto → j < arm_dof → r.0 k j ≡ buf.q k j
    pub stamps : (k : ℕ) → k < upto → r.1 k ≡ buf.t k

  IsPart-next :
      (buf : ArmTrajBuf F) (i : ℕ) (w : Array (Array F)) (t : Array F)
      → IsPart buf i (w, t)
      → IsPart buf (i + 1) (stored_q buf i w, update t i (buf.t i))
  IsPart-next buf i w t part = record {
    joints = λ k j l m. ground (arith, copy_lem arm_dof (buf.q i) (w i) j, part.joints k j);
    stamps = λ k l. ground (arith, part.stamps k);
  }

  IsPart-before :
      (buf : ArmTrajBuf F) (i : ℕ) (w : Array (Array F)) (t : Array F)
      → IsPart buf i (w, t)
      → 0 < i
      → t (i - 1) ≡ buf.t (i - 1)
  IsPart-before buf i w t part p = part.stamps (i - 1) (omega arith)

  load_entry-pass :
      (buf : ArmTrajBuf F) (i : ℕ) (w : Array (Array F)) (t : Array F)
      → IsPart buf i (w, t)
      → entry_passes buf i ≡ true
      → load_entry buf.q buf.t i w t ≡ some (stored_q buf i w, update t i (buf.t i))
  load_entry-pass buf i w t part h = rw (load_entry_lem buf i w t (IsPart-before buf i w t part), h)

  load_entry-fail :
      (buf : ArmTrajBuf F) (i : ℕ) (w : Array (Array F)) (t : Array F)
      → IsPart buf i (w, t)
      → entry_passes buf i ≡ false
      → load_entry buf.q buf.t i w t ≡ none
  load_entry-fail buf i w t part h = rw (load_entry_lem buf i w t (IsPart-before buf i w t part), h)

  pub load_from-some :
      (n : ℕ) (buf : ArmTrajBuf F) (i m : ℕ) (w : Array (Array F)) (t : Array F)
      → i + n ≡ m
      → IsPart buf i (w, t)
      → for_all n i (entry_passes buf) ≡ true
      → (r : Array (Array F) × Array F) × (load_from n buf.q buf.t i w t ≡ some r) × IsPart buf m r
  unfolding load_from for_all
  load_from-some zero buf i m w t e part h =
      ((w, t), refl, subst (λ u. IsPart buf u (w, t)) (omega arith) part)
  load_from-some (suc n) buf i m w t e part h =
      let good : entry_passes buf i ≡ true = ground arith in
      let rest : for_all n (i + 1) (entry_passes buf) ≡ true = ground arith in
      rw (load_entry-pass buf i w t part good, load_from)
        (load_from-some n buf (i + 1) m (stored_q buf i w) (update t i (buf.t i)) (omega arith)
          (IsPart-next buf i w t part) rest)

  pub load_from-none :
      (n : ℕ) (buf : ArmTrajBuf F) (i : ℕ) (w : Array (Array F)) (t : Array F)
      → IsPart buf i (w, t)
      → for_all n i (entry_passes buf) ≡ false
      → load_from n buf.q buf.t i w t ≡ none
  unfolding load_from for_all
  load_from-none zero buf i w t part h = cc
  load_from-none (suc n) buf i w t part h = elim (Bool-cases (entry_passes buf i)) [
    | inl good ↦
        rw (load_entry-pass buf i w t part good, load_from)
          (load_from-none n buf (i + 1) (stored_q buf i w) (update t i (buf.t i))
            (IsPart-next buf i w t part) (ground arith))
    | inr bad ↦ rw (load_entry-fail buf i w t part bad, load_from)
  ]
