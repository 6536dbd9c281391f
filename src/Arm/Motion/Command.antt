-- ===== src/Arm/Motion/Command.antt =====
-- The set points of the control callback in src/franka_right_arm.cpp, over a trajectory that was
-- accepted: before its first waypoint's time, along it, and behind its end.
use franka_kistar_r_exp_gwb.Common.{
  ℕ, ◌+◌, ◌-◌, ◌≤◌, ◌<◌, ◌≡◌, sym, ◌∙◌, ◌↔◌, true-ne-false, false, none, some, Array, arith, ltb,
  lt→ltb, ltb→lt, ◌≢◌, Bool-cases, inl, inr, subst, some-ne-none,
}
use franka_kistar_r_exp_gwb.Common.Int.{pos}
use franka_kistar_r_exp_gwb.Double.{Double, IsIeee, ◌≼◌, ◌≺◌, IsFinite, IsModest}
use franka_kistar_r_exp_gwb.Double.Order.{not-le_of_lt, lt_of_not_le}
use franka_kistar_r_exp_gwb.Shm.{arm_dof}
use franka_kistar_r_exp_gwb.Arm.Limits.{IsWithinLimits-IsModest}
use franka_kistar_r_exp_gwb.Arm.Plan.{Plan, IsSound}
use franka_kistar_r_exp_gwb.Arm.Motion.{lerp7, total_dur, segment, fraction, desired, command}
use franka_kistar_r_exp_gwb.Arm.Motion.Segment.{segment_lem, segment_before, times_rise}
use franka_kistar_r_exp_gwb.Arm.Motion.Between.{
  IsBetween, IsBehind, lerp7_joint, step-IsBetween, step-IsBehind, fraction_unit, fraction_early,
  add_nonneg,
}

module _ {F : Type 0} ⦃d : Double F⦄ (laws : IsIeee F) (p : Plan F) (sound : IsSound p) where
  open laws use {le_trans, le_of_lt, of_nano-finite, of_nano_mono, sub-finite_modest}

  abbrev pub finish : F
  finish = d.add (total_dur p) (d.of_nano (pos 50_000_000))

  last-IsFinite : IsFinite (total_dur p)
  last-IsFinite = (sound.entries (p.len - 1) (omega arith)).finite

  not_finished :
      (elapsed : F) → IsFinite elapsed → elapsed ≺ total_dur p → d.le finish elapsed ≡ false
  not_finished elapsed f early = elim (Bool-cases (d.le finish elapsed)) [
    | inl over ↦
        let past : total_dur p ≼ elapsed =
          le_trans (total_dur p) finish elapsed
            (add_nonneg laws (total_dur p) _ last-IsFinite
              (of_nano_mono (pos 0) (pos 50_000_000) (omega arith)))
            over in
        absurd
          (true-ne-false (sym past ∙ not-le_of_lt laws elapsed (total_dur p) f last-IsFinite early))
    | inr h ↦ h
  ]

  -- The pose that the callback interpolates in segment `i`.
  abbrev pose_at : F → ℕ → Array F
  pose_at elapsed i =
      lerp7 (p.waypoints i) (p.waypoints (i + 1)) (fraction elapsed (p.times i) (p.times (i + 1)))

  command_of_segment :
      (elapsed : F)
      → IsFinite elapsed
      → elapsed ≺ total_dur p
      → segment p elapsed + 1 < p.len
      → command p elapsed ≡ some (pose_at elapsed (segment p elapsed), false)
  unfolding command desired
  command_of_segment elapsed f early l = rw (
    not-le_of_lt laws elapsed (total_dur p) f last-IsFinite early,
    lt→ltb (segment p elapsed + 1) p.len l,
    lt→ltb (segment p elapsed) p.len (omega arith),
    not_finished elapsed f early,
  )

  joint-IsModest : (i j : ℕ) → i < p.len → j < arm_dof → IsModest (p.waypoints i j)
  joint-IsModest i j l m = IsWithinLimits-IsModest laws (p.waypoints i) j (sound.entries i l).pose m

  joints-IsFinite :
      (i j : ℕ)
      → i + 1 < p.len
      → j < arm_dof
      → IsFinite (d.sub (p.waypoints (i + 1) j) (p.waypoints i j))
  joints-IsFinite i j l m =
      sub-finite_modest _ _ (joint-IsModest (i + 1) j l m) (joint-IsModest i j (omega arith) m)

  -- Along an accepted trajectory, from its first waypoint's time to its end, the set point lies in
  -- each joint between the two waypoints whose times hold the present one, or at most 10^-9 beyond
  -- the second of them by rounding, and the motion goes on.
  pub command_along :
      (elapsed : F)
      → IsFinite elapsed
      → p.times 0 ≼ elapsed
      → elapsed ≺ total_dur p
      → (i : ℕ) × (q : Array F) × (i + 1 < p.len)
        × (p.times i ≼ elapsed)
        × (elapsed ≺ p.times (i + 1))
        × (command p elapsed ≡ some (q, false))
        × ((j : ℕ) → j < arm_dof → IsBetween (p.waypoints i j) (p.waypoints (i + 1) j) (q j))
  command_along elapsed f start stop =
      let (l, lo, hi) = segment_lem laws p elapsed sound f start stop in
      let i = segment p elapsed in
      let here = sound.entries i (omega arith) in
      let (zero, one) =
        fraction_unit laws elapsed (p.times i) (p.times (i + 1)) f here.finite here.from_start lo
          (le_of_lt _ _ hi) in
      (
        i,
        pose_at elapsed i,
        l,
        lo,
        hi,
        command_of_segment elapsed f stop l,
        λ j m.
            rw
              (lerp7_joint (p.waypoints i) (p.waypoints (i + 1))
                (fraction elapsed (p.times i) (p.times (i + 1))) j m)
              (step-IsBetween laws _ _ _ (here.pose.finite j m)
                ((sound.entries (i + 1) l).pose.finite j m) (joint-IsModest i j (omega arith) m)
                (joint-IsModest (i + 1) j l m) zero one),
      )

  -- Behind the end the set point is the last waypoint; the motion is finished from 50 ms on.
  pub command_end :
      (elapsed : F)
      → total_dur p ≼ elapsed
      → command p elapsed ≡ some (p.waypoints (p.len - 1), d.le finish elapsed)
  unfolding command desired
  command_end elapsed h = rw (h, lt→ltb (p.len - 1) p.len (omega arith)) (ground arith)

  early_total : (elapsed : F) → IsFinite elapsed → elapsed ≺ p.times 0 → elapsed ≺ total_dur p
  early_total elapsed f early = elim (Bool-cases (d.le (total_dur p) elapsed)) [
    | inl past ↦
        let back =
          le_trans (p.times 0) (total_dur p) elapsed
            (times_rise laws p sound (p.len - 1) (omega arith)) past in
        absurd (
          true-ne-false (
            sym back
            ∙ not-le_of_lt laws elapsed (p.times 0) f (sound.entries 0 sound.nonempty).finite
                early))
    | inr h ↦ lt_of_not_le laws elapsed (total_dur p) f last-IsFinite h
  ]

  command_of_start :
      (elapsed : F)
      → IsFinite elapsed
      → elapsed ≺ p.times 0
      → 2 ≤ p.len
      → command p elapsed ≡ some (pose_at elapsed 0, false)
  command_of_start elapsed f early two =
      let e = segment_before laws p elapsed sound f early in
      subst (λ i. command p elapsed ≡ some (pose_at elapsed i, false)) e
        (command_of_segment elapsed f (early_total elapsed f early) (omega arith))

  -- Before the first waypoint's time, in an accepted trajectory of two or more, the set point runs
  -- ahead of the trajectory on the far side: each joint is at the first waypoint or beyond it, away
  -- from the second.
  pub command_early :
      (elapsed : F)
      → IsFinite elapsed
      → elapsed ≺ p.times 0
      → IsModest (d.sub elapsed (p.times 0))
      → IsFinite (d.sub elapsed (p.times 0))
      → 2 ≤ p.len
      → (q : Array F) × (command p elapsed ≡ some (q, false))
        × ((j : ℕ) → j < arm_dof → IsBehind (p.waypoints 0 j) (p.waypoints 1 j) (q j))
  command_early elapsed f early m num two =
      let first = sound.entries 0 (omega arith) in
      let (fin, neg) =
        fraction_early laws elapsed (p.times 0) (p.times 1) f first.finite m num
          (le_of_lt _ _ early) in
      (
        pose_at elapsed 0,
        command_of_start elapsed f early two,
        λ j l.
            rw
              (lerp7_joint (p.waypoints 0) (p.waypoints 1)
                (fraction elapsed (p.times 0) (p.times 1)) j l)
              (step-IsBehind laws _ _ _ (first.pose.finite j l)
                ((sound.entries 1 two).pose.finite j l) (joints-IsFinite 0 j two l) fin neg),
      )

  single-none :
      (elapsed : F) → IsFinite elapsed → p.len ≡ 1 → elapsed ≺ p.times 0 → command p elapsed ≡ none
  unfolding command desired
  single-none elapsed f one early = rw (
    not-le_of_lt laws elapsed (total_dur p) f last-IsFinite (early_total elapsed f early),
    segment_before laws p elapsed sound f early,
    one,
  )

  two-some :
      (elapsed : F)
      → IsFinite elapsed
      → elapsed ≺ total_dur p
      → 2 ≤ p.len
      → command p elapsed ≢ none
  two-some elapsed f stop two h = elim (Bool-cases (d.le (p.times 0) elapsed)) [
    | inl start ↦ some-ne-none (sym (command_along elapsed f start stop).5 ∙ h)
    | inr early ↦ some-ne-none (
        sym (
          command_of_start elapsed f
            (lt_of_not_le laws elapsed (p.times 0) f (sound.entries 0 sound.nonempty).finite early)
            two)
        ∙ h)
  ]

  none-only :
      (elapsed : F)
      → IsFinite elapsed
      → command p elapsed ≡ none
      → (p.len ≡ 1) × (elapsed ≺ p.times 0)
  none-only elapsed f h = elim (Bool-cases (d.le (total_dur p) elapsed)) [
    | inl past ↦ absurd (some-ne-none (sym (command_end elapsed past) ∙ h))
    | inr before ↦
        let stop = lt_of_not_le laws elapsed (total_dur p) f last-IsFinite before in
        elim (Bool-cases (ltb 1 p.len)) [
          | inl two ↦ absurd (two-some elapsed f stop (ltb→lt 1 p.len two) h)
          | inr few ↦
              let one : p.len ≡ 1 = ground (arith, sound.nonempty) in
              let first : p.len - 1 ≡ 0 = omega arith in
              (one, subst (λ i. elapsed ≺ p.times i) first stop)
        ]
  ]

  -- For an accepted trajectory and a finite time, the callback reads past the end of a vector
  -- exactly if there is one waypoint and its time has not come.
  pub command-none_iff :
      (elapsed : F)
      → IsFinite elapsed
      → (command p elapsed ≡ none) ↔ ((p.len ≡ 1) × (elapsed ≺ p.times 0))
  command-none_iff elapsed f = (none-only elapsed f, λ h. single-none elapsed f h.0 h.1)
