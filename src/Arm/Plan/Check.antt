-- ===== src/Arm/Plan/Check.antt =====
-- Which trajectories `executeTrajFromShm` of src/franka_right_arm.cpp accepts.
use franka_kistar_r_exp_gwb.Common.{
  ℕ, zero, suc, ◌-◌, ◌≤◌, ◌<◌, ◌≡◌, sym, subst, ◌∙◌, some-ne-none, inl, inr, true, false, none,
  some, Array, arith, for_all, for_all_sound, for_all_complete, Bool-cases, eq_zero_or_pos,
}
use mathlib.Core.Option.{some-injective}
use franka_kistar_r_exp_gwb.Common.Int.{pos, pos_part}
use franka_kistar_r_exp_gwb.Double.{Double, IsIeee, IsFinite, nought}
use franka_kistar_r_exp_gwb.Double.Order.{le_of_not_lt, lt_of_not_le, not-lt_of_le, not-le_of_lt}
use franka_kistar_r_exp_gwb.Shm.{ArmTrajBuf, arm_dof, arm_traj_max_pts}
use franka_kistar_r_exp_gwb.Arm.Limits.{IsWithinLimits, validate_waypoint_iff}
use franka_kistar_r_exp_gwb.Arm.Plan.{
  Plan, time_is_bad, load_from, plan_of, load, IsEntry, IsSound, IsCopy,
}
use franka_kistar_r_exp_gwb.Arm.Plan.Copy.{entry_passes, IsPart, load_from-some, load_from-none}

module _ {F : Type 0} ⦃d : Double F⦄ (laws : IsIeee F) where
  open laws use {of_nano-finite}

  zero-IsFinite : IsFinite {F = F} nought
  zero-IsFinite = of_nano-finite (pos 0) (omega arith)

  IsWithinLimits-congr :
      (q r : Array F) → ((j : ℕ) → j < arm_dof → q j ≡ r j) → IsWithinLimits q → IsWithinLimits r
  IsWithinLimits-congr q r e w = record {
    finite = λ j l. rw (← e j l) (w.finite j l);
    above = λ j l. rw (← e j l) (w.above j l);
    below = λ j l. rw (← e j l) (w.below j l);
  }

  entry_passes_sound :
      (buf : ArmTrajBuf F) (i : ℕ)
      → (0 < i → IsFinite (buf.t (i - 1)))
      → entry_passes buf i ≡ true
      → IsEntry buf.q buf.t i
  unfolding time_is_bad
  entry_passes_sound buf i before h =
      let f : IsFinite (buf.t i) = ground arith in
      record {
        pose = (validate_waypoint_iff laws (buf.q i)).0 (ground arith);
        finite = f;
        from_start = le_of_not_lt laws (buf.t i) nought f zero-IsFinite (ground arith);
        later = λ p. lt_of_not_le laws (buf.t (i - 1)) (buf.t i) (before p) f (ground arith);
      }

  entry_passes_complete :
      (buf : ArmTrajBuf F) (i : ℕ)
      → (0 < i → IsFinite (buf.t (i - 1)))
      → IsEntry buf.q buf.t i
      → entry_passes buf i ≡ true
  unfolding time_is_bad
  entry_passes_complete buf i before e =
      rw
        (
          (validate_waypoint_iff laws (buf.q i)).1 e.pose,
          e.finite,
          not-lt_of_le laws (buf.t i) nought e.finite zero-IsFinite e.from_start,
        )
        (elim (eq_zero_or_pos i) [
          | inl z ↦ ground arith
          | inr p ↦
              rw (not-le_of_lt laws (buf.t (i - 1)) (buf.t i) (before p) e.finite (e.later p))
                (ground arith)
        ])

  entries_sound :
      (buf : ArmTrajBuf F) (n : ℕ)
      → for_all n 0 (entry_passes buf) ≡ true
      → (i : ℕ) → i < n
      → IsEntry buf.q buf.t i
  entries_sound buf n h zero l =
      entry_passes_sound buf zero (λ p. absurd (omega arith))
        (for_all_sound n 0 (entry_passes buf) h zero (omega arith) (omega arith))
  entries_sound buf n h (suc i) l =
      let e : i ≡ suc i - 1 = omega arith in
      entry_passes_sound buf (suc i)
        (λ _. subst (λ k. IsFinite (buf.t k)) e (entries_sound buf n h i (omega arith)).finite)
        (for_all_sound n 0 (entry_passes buf) h (suc i) (omega arith) (omega arith))

  entries_complete :
      (buf : ArmTrajBuf F) (n : ℕ)
      → ((i : ℕ) → i < n → IsEntry buf.q buf.t i)
      → for_all n 0 (entry_passes buf) ≡ true
  entries_complete buf n h = for_all_complete n 0 (entry_passes buf) λ k _ l.
      entry_passes_complete buf k (λ p. (h (k - 1) (omega arith)).finite) (h k (omega arith))

  -- What `load` makes of a buffer of `n` entries.
  load_of_len :
      (buf : ArmTrajBuf F) (n : ℕ)
      → buf.len ≡ pos n
      → 0 < n
      → n ≤ arm_traj_max_pts
      → load buf ≡ plan_of n (load_from n buf.q buf.t 0 (λ _ _. nought) (λ _. nought))
  unfolding load
  load_of_len buf n e p l = ground arith

  load-len :
      (buf : ArmTrajBuf F) (p : Plan F)
      → load buf ≡ some p
      → (n : ℕ) × (buf.len ≡ pos n) × (0 < n) × (n ≤ arm_traj_max_pts)
  unfolding load
  load-len buf p h = (pos_part buf.len, ground arith, ground arith, ground arith)

  abbrev plan : ℕ → Array (Array F) × Array F → Plan F
  plan n (w, t) = record { len = n; waypoints = w; times = t }

  -- An entry is its seven joints and the times up to it.
  pub IsEntry-congr :
      (q r : Array (Array F)) (t u : Array F) (i : ℕ)
      → ((j : ℕ) → j < arm_dof → q i j ≡ r i j)
      → ((k : ℕ) → k ≤ i → t k ≡ u k)
      → IsEntry q t i
      → IsEntry r u i
  IsEntry-congr q r t u i joints stamps e = record {
    pose = IsWithinLimits-congr (q i) (r i) joints e.pose;
    finite = rw (← stamps i (omega arith)) e.finite;
    from_start = rw (← stamps i (omega arith)) e.from_start;
    later = λ p. rw (← stamps (i - 1) (omega arith), ← stamps i (omega arith)) (e.later p);
  }

  plan-IsSound :
      (buf : ArmTrajBuf F) (n : ℕ) (r : Array (Array F) × Array F)
      → 0 < n
      → n ≤ arm_traj_max_pts
      → IsPart buf n r
      → ((i : ℕ) → i < n → IsEntry buf.q buf.t i)
      → IsSound (plan n r)
  plan-IsSound buf n r p l part h = record {
    nonempty = p;
    capped = l;
    entries = λ i m.
        IsEntry-congr buf.q r.0 buf.t r.1 i (λ j k. sym (part.joints i j m k))
          (λ k o. sym (part.stamps k (omega arith))) (h i m);
  }

  plan-IsCopy :
      (buf : ArmTrajBuf F) (n : ℕ) (r : Array (Array F) × Array F)
      → buf.len ≡ pos n
      → IsPart buf n r
      → IsCopy buf (plan n r)
  plan-IsCopy buf n r e part = record {
    count = e;
    joints = λ i j l m. part.joints i j l m;
    stamps = λ i l. part.stamps i l;
  }

  load-plan :
      (buf : ArmTrajBuf F) (n : ℕ)
      → buf.len ≡ pos n
      → 0 < n
      → n ≤ arm_traj_max_pts
      → for_all n 0 (entry_passes buf) ≡ true
      → (r : Array (Array F) × Array F) × (load buf ≡ some (plan n r)) × IsPart buf n r
  unfolding plan_of
  load-plan buf n e p l h =
      let start : IsPart buf 0 ((λ _ _. nought), (λ _. nought)) = record {
        joints = λ k j m. absurd (omega arith);
        stamps = λ k m. absurd (omega arith);
      } in
      let (r, loaded, part) =
        load_from-some n buf 0 n (λ _ _. nought) (λ _. nought) (omega arith) start h in
      (r, rw (load_of_len buf n e p l, loaded), part)

  load_refuses :
      (buf : ArmTrajBuf F) (n : ℕ)
      → buf.len ≡ pos n
      → 0 < n
      → n ≤ arm_traj_max_pts
      → for_all n 0 (entry_passes buf) ≡ false
      → load buf ≡ none
  unfolding plan_of
  load_refuses buf n e p l h =
      let start : IsPart buf 0 ((λ _ _. nought), (λ _. nought)) = record {
        joints = λ k j m. absurd (omega arith);
        stamps = λ k m. absurd (omega arith);
      } in
      rw (load_of_len buf n e p l, load_from-none n buf 0 (λ _ _. nought) (λ _. nought) start h)

  -- An accepted trajectory has 1 to 1000 waypoints, each within the joint limits, at finite times
  -- that start at 0 or later and rise strictly, and it is the one in the shared buffer.
  pub load_sound : (buf : ArmTrajBuf F) (p : Plan F) → load buf ≡ some p → IsSound p × IsCopy buf p
  load_sound buf p h =
      let (n, e, m, l) = load-len buf p h in
      elim (Bool-cases (for_all n 0 (entry_passes buf))) [
        | inl good ↦
            let (r, loaded, part) = load-plan buf n e m l good in
            subst (λ u. IsSound u × IsCopy buf u) (some-injective _ _ (sym loaded ∙ h))
              (plan-IsSound buf n r m l part (entries_sound buf n good), plan-IsCopy buf n r e part)
        | inr bad ↦ absurd (some-ne-none (sym h ∙ load_refuses buf n e m l bad))
      ]

  -- A buffer of 1 to 1000 entries, each a pose within the joint limits at a finite time that is not
  -- negative and later than the one before it, is accepted, and the plan is a copy of it.
  pub load_complete :
      (buf : ArmTrajBuf F) (n : ℕ)
      → buf.len ≡ pos n
      → 0 < n
      → n ≤ arm_traj_max_pts
      → ((i : ℕ) → i < n → IsEntry buf.q buf.t i)
      → (p : Plan F) × (load buf ≡ some p) × IsSound p × IsCopy buf p
  load_complete buf n e p l h =
      let (r, loaded, part) = load-plan buf n e p l (entries_complete buf n h) in
      (plan n r, loaded, plan-IsSound buf n r p l part h, plan-IsCopy buf n r e part)
