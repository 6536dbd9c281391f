-- ===== src/Bridge/Targets/Effects.antt =====
-- What the target handlers of ros2/kistar_hand_bridge/src/kistar_hand_bridge_node.cpp write, and
-- how the arm's thread (src/franka_right_arm.cpp) takes the speed factor.
use franka_kistar_r_exp_gwb.Common.{
  ℕ, zero, suc, update, ◌≡◌, refl, false, ◌&&◌, List, Array, arith, copy, copy_lem, length, get_or,
  ltb, ◌==◌, if◌then◌else◌, Bool-cases, inl, inr,
}
use franka_kistar_r_exp_gwb.Common.Int.{ℤ, pos}
use franka_kistar_r_exp_gwb.Double.{Double, IsIeee, ◌≼◌, IsFinite, nought}
use franka_kistar_r_exp_gwb.Double.Order.{le_of_not_lt}
use franka_kistar_r_exp_gwb.Shm.{ShmMsgs, arm_dof, hand_dof}
use franka_kistar_r_exp_gwb.Arm.Limits.Speed.{sanitize_in_range}
use franka_kistar_r_exp_gwb.Arm.Limits.{min_speed_factor, max_speed_factor, sanitize_speed_factor}
use franka_kistar_r_exp_gwb.Bridge.Targets.{
  on_franka_target, on_hand_target, clamp_speed, on_franka_speed,
}

-- The first row of an array gets `n` new values.
row_lem :
    {A : Type 0} (n : ℕ) (v : Array A) (old : Array (Array A)) (a k : ℕ)
    → update old 0 (copy n v (old 0)) a k ≡ (if a == 0 && ltb k n then v k else old a k)
row_lem n v old zero k = copy_lem n v (old 0) k
row_lem n v old (suc a) k = let off : (suc a == 0) ≡ false = ground arith in rw off refl

module _ {F : Type 0} ⦃d : Double F⦄ where
  -- A message of seven values becomes the arm's target, and one of any other size changes nothing;
  -- no other field is touched.
  pub on_franka_target_lem :
      (values : List F) (shm : ShmMsgs F)
      → let s = on_franka_target values shm in
        ((a k : ℕ)
          → s.arm_j_tar a k ≡ (
              if (length values == arm_dof && a == 0) && ltb k arm_dof
              then get_or values k nought
              else shm.arm_j_tar a k))
        × (s ≡ record shm { arm_j_tar = s.arm_j_tar })
  unfolding on_franka_target
  on_franka_target_lem values shm = elim (Bool-cases (length values == arm_dof)) [
    | inl fits ↦ rw fits (row_lem arm_dof (λ i. get_or values i nought) shm.arm_j_tar, refl)
    | inr bad ↦ rw bad (λ a k. refl, refl)
  ]

  -- A message of sixteen values becomes the hand's target, and one of any other size changes
  -- nothing; no other field is touched.
  pub on_hand_target_lem :
      (values : List ℤ) (shm : ShmMsgs F)
      → let s = on_hand_target values shm in
        ((a k : ℕ)
          → s.j_tar a k ≡ (
              if (length values == hand_dof && a == 0) && ltb k hand_dof
              then get_or values k (pos 0)
              else shm.j_tar a k))
        × (s ≡ record shm { j_tar = s.j_tar })
  unfolding on_hand_target
  on_hand_target_lem values shm = elim (Bool-cases (length values == hand_dof)) [
    | inl fits ↦ rw fits (row_lem hand_dof (λ i. get_or values i (pos 0)) shm.j_tar, refl)
    | inr bad ↦ rw bad (λ a k. refl, refl)
  ]

  clamp_speed_nan :
      (v : F)
      → d.lt v min_speed_factor ≡ false
      → d.lt max_speed_factor v ≡ false
      → clamp_speed v ≡ v
  unfolding clamp_speed
  clamp_speed_nan v a b = rw (a, b)

  module _ (laws : IsIeee F) where
    open laws use {of_nano-finite, of_nano_mono, le_refl}

    clamp_speed_range :
        (v : F)
        → IsFinite v
        → IsFinite (clamp_speed v)
          × (min_speed_factor ≼ clamp_speed v)
          × (clamp_speed v ≼ max_speed_factor)
    unfolding clamp_speed
    clamp_speed_range v f =
        let lo : IsFinite {F = F} min_speed_factor = of_nano-finite (pos 1_000_000) (omega arith) in
        let hi : IsFinite {F = F} max_speed_factor =
          of_nano-finite (pos 1_000_000_000) (omega arith) in
        ground (
          arith,
          le_refl (min_speed_factor {F = F}) lo,
          le_refl (max_speed_factor {F = F}) hi,
          of_nano_mono (pos 1_000_000) (pos 1_000_000_000) (omega arith),
          le_of_not_lt laws max_speed_factor v hi f,
          le_of_not_lt laws v min_speed_factor f lo,
        )

    -- A finite speed factor from the topic is stored within [0.001, 1], and the arm's thread then
    -- uses it as it is.
    pub on_franka_speed-sanitize :
        (v fallback : F) (shm : ShmMsgs F)
        → IsFinite v
        → let s = (on_franka_speed v shm).arm_speed_factor 0 in
          (min_speed_factor ≼ s) × (s ≼ max_speed_factor) × (sanitize_speed_factor s fallback ≡ s)
    unfolding on_franka_speed
    on_franka_speed-sanitize v fallback shm f =
        let (fin, lo, hi) = clamp_speed_range v f in
        (lo, hi, sanitize_in_range laws (clamp_speed v) fallback fin lo hi)

    -- A number that is not finite and compares below and above nothing, a NaN, passes the clamp and
    -- is stored; the arm's thread then uses its own factor.
    pub on_franka_speed_nan :
        (v fallback : F) (shm : ShmMsgs F)
        → d.is_finite v ≡ false
        → ((x : F) → d.lt v x ≡ false)
        → ((x : F) → d.lt x v ≡ false)
        → let s = (on_franka_speed v shm).arm_speed_factor 0 in
          (s ≡ v) × (sanitize_speed_factor s fallback ≡ fallback)
    unfolding on_franka_speed sanitize_speed_factor
    on_franka_speed_nan v fallback shm f below above =
        let kept = clamp_speed_nan v (below min_speed_factor) (above max_speed_factor) in
        (kept, rw (kept, f) refl)
