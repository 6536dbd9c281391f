-- ===== src/Arm/Limits/Speed.antt =====
-- The speed factor that src/franka_right_arm.cpp makes of the one in the shared memory.
use franka_kistar_r_exp_gwb.Common.{ℕ, ◌≤◌, ◌≡◌, refl, ◌⊎◌, false, arith, Bool-cases, inl, inr}
use franka_kistar_r_exp_gwb.Common.Int.{pos}
use franka_kistar_r_exp_gwb.Double.{Double, IsIeee, ◌≼◌, ◌≺◌, IsFinite}
use franka_kistar_r_exp_gwb.Double.Order.{le_of_not_lt, not-lt_of_le}
use franka_kistar_r_exp_gwb.Arm.Limits.{min_speed_factor, max_speed_factor, sanitize_speed_factor}

module _ {F : Type 0} ⦃d : Double F⦄ where
  sanitize_changes :
      (speed fallback : F)
      → IsFinite speed
      → (sanitize_speed_factor speed fallback ≡ speed)
        ⊎ (speed ≺ min_speed_factor)
        ⊎ (max_speed_factor ≺ speed)
  unfolding sanitize_speed_factor
  sanitize_changes speed fallback f = elim (Bool-cases (d.lt speed min_speed_factor)) [
    | inl low ↦ inr (inl low)
    | inr l ↦ elim (Bool-cases (d.lt max_speed_factor speed)) [
      | inl high ↦ inr (inr high)
      | inr h ↦ inl (rw (f, l, h) refl)
    ]
  ]

  sanitize_not_finite :
      (speed fallback : F)
      → d.is_finite speed ≡ false
      → sanitize_speed_factor speed fallback ≡ fallback
  unfolding sanitize_speed_factor
  sanitize_not_finite speed fallback f = rw f refl

  module _ (laws : IsIeee F) where
    open laws use {of_nano-finite, of_nano_mono, le_refl, le_trans}

    literal_lt :
        (m : ℕ) {x : F}
        → m ≤ 1_000_000_000
        → IsFinite x
        → d.lt (d.of_nano (pos m)) x ≡ false
        → x ≼ d.of_nano (pos m)
    literal_lt m {x} h f t =
        le_of_not_lt laws (d.of_nano (pos m)) x (of_nano-finite (pos m) (omega arith)) f t

    lt_literal :
        (m : ℕ) {x : F}
        → m ≤ 1_000_000_000
        → IsFinite x
        → d.lt x (d.of_nano (pos m)) ≡ false
        → d.of_nano (pos m) ≼ x
    lt_literal m {x} h f t =
        le_of_not_lt laws x (d.of_nano (pos m)) f (of_nano-finite (pos m) (omega arith)) t

    sanitize_bounds :
        (speed fallback : F)
        → IsFinite speed
        → let r = sanitize_speed_factor speed fallback in
          (min_speed_factor ≼ r) × (r ≼ max_speed_factor)
    unfolding sanitize_speed_factor
    sanitize_bounds speed fallback f =
        let lo : IsFinite {F = F} min_speed_factor = of_nano-finite (pos 1_000_000) (omega arith) in
        let hi : IsFinite {F = F} max_speed_factor =
          of_nano-finite (pos 1_000_000_000) (omega arith) in
        ground (
          arith,
          le_refl (min_speed_factor {F = F}) lo,
          le_refl (max_speed_factor {F = F}) hi,
          of_nano_mono (pos 1_000_000) (pos 1_000_000_000) (omega arith),
          literal_lt 1_000_000_000 {x = speed} (omega arith) f,
          lt_literal 1_000_000 {x = speed} (omega arith) f,
        )

    pub sanitize_in_range :
        (speed fallback : F)
        → IsFinite speed
        → min_speed_factor ≼ speed
        → speed ≼ max_speed_factor
        → sanitize_speed_factor speed fallback ≡ speed
    unfolding sanitize_speed_factor
    sanitize_in_range speed fallback f a b =
        let lo : IsFinite {F = F} min_speed_factor = of_nano-finite (pos 1_000_000) (omega arith) in
        let hi : IsFinite {F = F} max_speed_factor =
          of_nano-finite (pos 1_000_000_000) (omega arith) in
        ground (
          arith,
          not-lt_of_le laws speed min_speed_factor f lo a,
          not-lt_of_le laws max_speed_factor speed hi f b,
        )

    -- A finite speed factor comes out in [0.001, 1], unchanged unless it lies below or above; any
    -- other gives the fallback.
    pub sanitize_speed_factor_lem :
        (speed fallback : F)
        → let r = sanitize_speed_factor speed fallback in
          (IsFinite speed
            × (min_speed_factor ≼ r)
            × (r ≼ max_speed_factor)
            × ((r ≡ speed) ⊎ (speed ≺ min_speed_factor) ⊎ (max_speed_factor ≺ speed)))
          ⊎ ((d.is_finite speed ≡ false) × (r ≡ fallback))
    sanitize_speed_factor_lem speed fallback = elim (Bool-cases (d.is_finite speed)) [
      | inl f ↦
          let (lo, hi) = sanitize_bounds speed fallback f in
          inl (f, lo, hi, sanitize_changes speed fallback f)
      | inr f ↦ inr (f, sanitize_not_finite speed fallback f)
    ]
