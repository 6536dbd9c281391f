-- ===== src/Arm/Motion/Segment.antt =====
-- The linear search for the segment in src/franka_right_arm.cpp finds the one that holds the time.
use franka_kistar_r_exp_gwb.Common.{
  ℕ, zero, suc, ◌+◌, ◌-◌, ◌<◌, ◌≡◌, sym, ◌∙◌, subst, true-ne-false, false, inl, inr, none, arith,
  Option-cases, find_first, find_first-some, find_first-none,
}
use franka_kistar_r_exp_gwb.Double.{Double, IsIeee, ◌≼◌, ◌≺◌, IsFinite}
use franka_kistar_r_exp_gwb.Double.Order.{not-le_of_lt, le_of_not_lt}
use franka_kistar_r_exp_gwb.Arm.Plan.{Plan, IsSound}
use franka_kistar_r_exp_gwb.Arm.Motion.{total_dur, is_segment, segment}

module _ {F : Type 0} ⦃d : Double F⦄ (laws : IsIeee F) where
  -- If no segment holds the time, every waypoint's time has come, once the first has.
  no_segment-le :
      (p : Plan F) (elapsed : F)
      → IsSound p
      → IsFinite elapsed
      → p.times 0 ≼ elapsed
      → find_first (p.len - 1) 0 (is_segment p elapsed) ≡ none
      → (i : ℕ) → i < p.len
      → p.times i ≼ elapsed
  no_segment-le p elapsed s f start h zero l = start
  no_segment-le p elapsed s f start h (suc i) l =
      let before = no_segment-le p elapsed s f start h i (omega arith) in
      let miss =
        find_first-none (p.len - 1) 0 (is_segment p elapsed) h i (omega arith) (omega arith) in
      let late : d.lt elapsed (p.times (i + 1)) ≡ false = ground arith in
      let next : i + 1 ≡ suc i = omega arith in
      le_of_not_lt laws elapsed (p.times (suc i)) f (s.entries (suc i) l).finite
        (subst (λ k. d.lt elapsed (p.times k) ≡ false) next late)

  -- In an accepted trajectory, at a time from the first waypoint's to the end, the search finds a
  -- segment, and its two times hold the given one.
  pub segment_lem :
      (p : Plan F) (elapsed : F)
      → IsSound p
      → IsFinite elapsed
      → p.times 0 ≼ elapsed
      → elapsed ≺ total_dur p
      → let i = segment p elapsed in
        (i + 1 < p.len) × (p.times i ≼ elapsed) × (elapsed ≺ p.times (i + 1))
  unfolding segment
  segment_lem p elapsed s f start stop =
      elim (Option-cases (find_first (p.len - 1) 0 (is_segment p elapsed))) [
        | inl e ↦
            let past = no_segment-le p elapsed s f start e (p.len - 1) (omega arith) in
            let last = (s.entries (p.len - 1) (omega arith)).finite in
            absurd (true-ne-false (sym past ∙ not-le_of_lt laws elapsed (total_dur p) f last stop))
        | inr (i, e) ↦
            let (_, below, found) =
              find_first-some (p.len - 1) 0 (is_segment p elapsed) {k = i} e in
            rw (e, segment) (omega arith, ground arith, ground arith)
      ]

  pub times_rise : (p : Plan F) → IsSound p → (i : ℕ) → i < p.len → p.times 0 ≼ p.times i
  times_rise p s zero l = laws.le_refl (p.times 0) (s.entries 0 l).finite
  times_rise p s (suc i) l =
      let next : suc i - 1 ≡ i = omega arith in
      let step : p.times i ≺ p.times (suc i) =
        subst (λ k. p.times k ≺ p.times (suc i)) next ((s.entries (suc i) l).later (omega arith)) in
      laws.le_trans (p.times 0) (p.times i) (p.times (suc i)) (times_rise p s i (omega arith))
        (laws.le_of_lt (p.times i) (p.times (suc i)) step)

  -- Before the first waypoint's time no segment is found, and the first one is taken.
  pub segment_before :
      (p : Plan F) (elapsed : F)
      → IsSound p
      → IsFinite elapsed
      → elapsed ≺ p.times 0
      → segment p elapsed ≡ 0
  unfolding segment
  segment_before p elapsed s f early =
      elim (Option-cases (find_first (p.len - 1) 0 (is_segment p elapsed))) [
        | inl e ↦ rw (e, segment)
        | inr (i, e) ↦
            let (_, below, found) =
              find_first-some (p.len - 1) 0 (is_segment p elapsed) {k = i} e in
            let reached : p.times i ≼ elapsed = ground arith in
            let back =
              laws.le_trans (p.times 0) (p.times i) elapsed (times_rise p s i (omega arith))
                reached in
            absurd (
              true-ne-false (
                sym back
                ∙ not-le_of_lt laws elapsed (p.times 0) f (s.entries 0 s.nonempty).finite early))
      ]
