-- ===== src/Arm/Limits.antt =====
-- src/franka_right_arm.cpp: the speed factor, the test for a new target, and the joint limits.
use franka_kistar_r_exp_gwb.Common.{
  ℕ, zero, suc, ◌+◌, ◌≤◌, ◌<◌, ◌≡◌, refl, ◌⊎◌, ◌↔◌, Bool, true, false, not, ◌||◌, Array, List, [],
  ◌∷◌, arith, for_all, get_or, for_all_sound, for_all_complete, if◌then◌else◌, Bool-cases, inl, inr,
}
use franka_kistar_r_exp_gwb.Common.Int.{ℤ, pos, negsuc, pos_part, neg_part}
use franka_kistar_r_exp_gwb.Double.{Double, IsIeee, ◌≼◌, ◌≺◌, IsFinite, IsModest}
use franka_kistar_r_exp_gwb.Double.Order.{le_of_not_lt, not-lt_of_le}
use franka_kistar_r_exp_gwb.Shm.{arm_dof}
use franka_kistar_r_exp_gwb.Arm.Robot.{minus}
pub mod Speed

-- kFr3LowerJointLimits and kFr3UpperJointLimits, in units of 10^-9
abbrev pub lower_limits : List ℤ
lower_limits =
    minus 2_743_700_000
    ∷ minus 1_783_700_000
    ∷ minus 2_900_700_000
    ∷ minus 3_042_100_000
    ∷ minus 2_806_500_000
    ∷ pos 544_500_000
    ∷ minus 3_015_900_000
    ∷ []

abbrev pub upper_limits : List ℤ
upper_limits =
    pos 2_743_700_000
    ∷ pos 1_783_700_000
    ∷ pos 2_900_700_000
    ∷ minus 151_800_000
    ∷ pos 2_806_500_000
    ∷ pos 4_516_900_000
    ∷ pos 3_015_900_000
    ∷ []

abbrev IsSmall : ℤ → Type 0
IsSmall m = pos_part m + neg_part m ≤ 1_000_000_000_000

abbrev AllSmall : List ℤ → Type 0
AllSmall [] = Unit
AllSmall (m ∷ ms) = IsSmall m × AllSmall ms

limits-IsSmall : (ms : List ℤ) → AllSmall ms → (j : ℕ) → IsSmall (get_or ms j (pos 0))
limits-IsSmall [] h j = omega arith
limits-IsSmall (m ∷ ms) h zero = h.0
limits-IsSmall (m ∷ ms) h (suc j) = limits-IsSmall ms h.1 j

module _ {F : Type 0} ⦃d : Double F⦄ where
  abbrev pub lower_limit : Array F
  lower_limit j = d.of_nano (get_or lower_limits j (pos 0))

  abbrev pub upper_limit : Array F
  upper_limit j = d.of_nano (get_or upper_limits j (pos 0))

  -- kTargetEps, kMinSpeedFactor, kMaxSpeedFactor, kDefaultSpeedFactor
  abbrev pub target_eps : F
  target_eps = d.of_nano (pos 100_000)

  abbrev pub min_speed_factor : F
  min_speed_factor = d.of_nano (pos 1_000_000)

  abbrev pub max_speed_factor : F
  max_speed_factor = d.of_nano (pos 1_000_000_000)

  abbrev pub default_speed_factor : F
  default_speed_factor = d.of_nano (pos 100_000_000)

  unfoldable pub sanitize_speed_factor : F → F → F
  sanitize_speed_factor speed fallback =
      if not (d.is_finite speed)
      then fallback
      else if d.lt speed min_speed_factor
      then min_speed_factor
      else if d.lt max_speed_factor speed
      then max_speed_factor
      else speed

  -- The loop returns at the first joint that differs by more than the tolerance.
  unfoldable pub is_target_changed : Array F → Array F → Bool
  is_target_changed a b =
      not (for_all arm_dof 0 (λ i. not (d.lt target_eps (d.abs (d.sub (a i) (b i))))))

  abbrev joint_passes : Array F → ℕ → Bool
  joint_passes q j =
      if not (d.is_finite (q j))
      then false
      else not (d.lt (q j) (lower_limit j) || d.lt (upper_limit j) (q j))

  -- The loop returns at the first joint that fails.
  unfoldable pub validate_waypoint : Array F → Bool
  validate_waypoint q = for_all arm_dof 0 (joint_passes q)

  -- A pose that the arm can take.
  pub record IsWithinLimits (q : Array F) : Type 0 where
    pub finite : (j : ℕ) → j < arm_dof → IsFinite (q j)
    pub above : (j : ℕ) → j < arm_dof → lower_limit j ≼ q j
    pub below : (j : ℕ) → j < arm_dof → q j ≼ upper_limit j

  module _ (laws : IsIeee F) where
    open laws use {of_nano-finite, of_nano_mono, le_refl, le_trans}

    lower_limit-IsFinite : (j : ℕ) → IsFinite (lower_limit j)
    lower_limit-IsFinite j = of_nano-finite _ (limits-IsSmall lower_limits (omega arith) j)

    upper_limit-IsFinite : (j : ℕ) → IsFinite (upper_limit j)
    upper_limit-IsFinite j = of_nano-finite _ (limits-IsSmall upper_limits (omega arith) j)

    joint_passes_sound :
        (q : Array F) (j : ℕ)
        → joint_passes q j ≡ true
        → IsFinite (q j) × (lower_limit j ≼ q j) × (q j ≼ upper_limit j)
    joint_passes_sound q j h =
        let f : IsFinite (q j) = ground arith in
        (
          f,
          le_of_not_lt laws (q j) (lower_limit j) f (lower_limit-IsFinite j) (ground arith),
          le_of_not_lt laws (upper_limit j) (q j) (upper_limit-IsFinite j) f (ground arith),
        )

    joint_passes_complete :
        (q : Array F) (j : ℕ)
        → IsFinite (q j)
        → lower_limit j ≼ q j
        → q j ≼ upper_limit j
        → joint_passes q j ≡ true
    joint_passes_complete q j f a b = rw (
      f,
      not-lt_of_le laws (q j) (lower_limit j) f (lower_limit-IsFinite j) a,
      not-lt_of_le laws (upper_limit j) (q j) (upper_limit-IsFinite j) f b,
    )

    -- A waypoint is accepted exactly if all seven joints are finite numbers within the limits.
    pub validate_waypoint_iff : (q : Array F) → (validate_waypoint q ≡ true) ↔ IsWithinLimits q
    unfolding validate_waypoint
    validate_waypoint_iff q = (
      λ h.
          let pass = λ (j : ℕ) (l : j < arm_dof).
            joint_passes_sound q j (for_all_sound arm_dof 0 (joint_passes q) h j (omega arith) l) in
          record {
            finite = λ j l. (pass j l).0;
            above = λ j l. (pass j l).1;
            below = λ j l. (pass j l).2;
          },
      λ w.
          for_all_complete arm_dof 0 (joint_passes q)
            λ k _ l. joint_passes_complete q k (w.finite k l) (w.above k l) (w.below k l),
    )

    -- A joint within the limits is far from overflow.
    pub IsWithinLimits-IsModest :
        (q : Array F) (j : ℕ) → IsWithinLimits q → j < arm_dof → IsModest (q j)
    IsWithinLimits-IsModest q j w l =
        let lo = limits-IsSmall lower_limits (omega arith) j in
        let hi = limits-IsSmall upper_limits (omega arith) j in
        (
          le_trans _ _ (q j) (of_nano_mono (negsuc 999_999_999_999) _ (omega arith)) (w.above j l),
          le_trans (q j) _ _ (w.below j l) (of_nano_mono _ (pos 1_000_000_000_000) (omega arith)),
        )
