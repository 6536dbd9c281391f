-- ===== src/Arm/Motion/Between.antt =====
-- The interpolated pose lies between its two waypoints, up to 10^-9 beyond the second
-- (`lerp7` and the callback of src/franka_right_arm.cpp).
use franka_kistar_r_exp_gwb.Common.{
  ℕ, ◌<◌, ◌≡◌, Array, arith, lt→ltb, copy_lem, Bool-cases, inl, inr,
}
use franka_kistar_r_exp_gwb.Common.Int.{pos}
use franka_kistar_r_exp_gwb.Double.{Double, IsIeee, ◌≼◌, ◌≺◌, IsFinite, IsModest, nought, one}
use franka_kistar_r_exp_gwb.Shm.{arm_dof}
use franka_kistar_r_exp_gwb.Arm.Motion.{lerp7, fraction}

module _ {F : Type 0} ⦃d : Double F⦄ where
  -- `x` lies from `a` on toward `b`, and at most 10^-9 beyond `b`.
  pub record IsBetween (a b x : F) : Type 0 where
    pub rising : a ≼ b → (a ≼ x) × (x ≼ d.add b (d.of_nano (pos 1)))
    pub falling : b ≼ a → (d.sub b (d.of_nano (pos 1)) ≼ x) × (x ≼ a)

  -- `x` lies from `a` on away from `b`.
  pub record IsBehind (a b x : F) : Type 0 where
    pub rising : a ≼ b → x ≼ a
    pub falling : b ≼ a → a ≼ x

  pub lerp7_joint :
      (a b : Array F) (alpha : F) (j : ℕ)
      → j < arm_dof
      → lerp7 a b alpha j ≡ d.add (a j) (d.mul alpha (d.sub (b j) (a j)))
  unfolding lerp7
  lerp7_joint a b alpha j l = rw (copy_lem arm_dof _ _ j, lt→ltb j arm_dof l)

  module _ (laws : IsIeee F) where
    open laws use {
      le_trans, le_refl, of_nano-finite, of_nano_mono, zero-le-sub, sub-le-zero, sub-le-sub,
      sub-finite, sub-finite_modest, add_mono, add_zero_le, le-add_zero, zero-le-div, div-le-one,
      div-le-zero, zero-le-mul, mul-le-self, mul-le-zero, self-le-mul, neg_mul-le, le-neg_mul,
      lt_of_le_lt,
    }

    pub add_nonneg : (z x : F) → IsFinite z → nought ≼ x → z ≼ d.add z x
    add_nonneg z x f h =
        le_trans z (d.add z nought) (d.add z x) (le-add_zero z f) (add_mono nought x z f h)

    add_nonpos : (z x : F) → IsFinite z → x ≼ nought → d.add z x ≼ z
    add_nonpos z x f h =
        le_trans (d.add z x) (d.add z nought) z (add_mono x nought z f h) (add_zero_le z f)

    -- A step of a fraction in [0, 1] of the way stays between the ends, up to 10^-9.
    pub step-IsBetween :
        (a b alpha : F)
        → IsFinite a
        → IsFinite b
        → IsModest a
        → IsModest b
        → nought ≼ alpha
        → alpha ≼ one
        → IsBetween a b (d.add a (d.mul alpha (d.sub b a)))
    step-IsBetween a b alpha fa fb ma mb lo hi =
        let fs = sub-finite_modest b a mb ma in
        record {
          rising = λ h.
              let up = zero-le-sub a b fa fb h in
              (
                add_nonneg a _ fa (zero-le-mul alpha _ lo hi fs up),
                le_trans _ _ _ (add_mono _ _ a fa (mul-le-self alpha _ lo hi fs up))
                    (laws.add-sub_upper a b ma mb),
              );
          falling = λ h.
              let down = sub-le-zero b a fb fa h in
              (
                le_trans _ _ _ (laws.add-sub_lower a b ma mb)
                    (add_mono _ _ a fa (self-le-mul alpha _ lo hi fs down)),
                add_nonpos a _ fa (mul-le-zero alpha _ lo hi fs down),
              );
        }

    -- A step of a negative fraction leads backwards.
    pub step-IsBehind :
        (a b alpha : F)
        → IsFinite a
        → IsFinite b
        → IsFinite (d.sub b a)
        → IsFinite alpha
        → alpha ≼ nought
        → IsBehind a b (d.add a (d.mul alpha (d.sub b a)))
    step-IsBehind a b alpha fa fb fs f neg = record {
      rising = λ h. add_nonpos a _ fa (neg_mul-le alpha _ f neg fs (zero-le-sub a b fa fb h));
      falling = λ h. add_nonneg a _ fa (le-neg_mul alpha _ f neg fs (sub-le-zero b a fb fa h));
    }

    positive : (dt : F) → d.of_nano (pos 1) ≺ dt → nought ≺ dt
    positive dt h =
        lt_of_le_lt nought (d.of_nano (pos 1)) dt (of_nano_mono (pos 0) (pos 1) (omega arith)) h

    zero-le-one : nought {F = F} ≼ one
    zero-le-one = of_nano_mono (pos 0) (pos 1_000_000_000) (omega arith)

    zero_refl : nought {F = F} ≼ nought
    zero_refl = le_refl nought (of_nano-finite (pos 0) (omega arith))

    -- Within its segment the fraction is in [0, 1].
    pub fraction_unit :
        (elapsed t0 t1 : F)
        → IsFinite elapsed
        → IsFinite t0
        → nought ≼ t0
        → t0 ≼ elapsed
        → elapsed ≼ t1
        → (nought ≼ fraction elapsed t0 t1) × (fraction elapsed t0 t1 ≼ one)
    unfolding fraction
    fraction_unit elapsed t0 t1 f f0 z lo hi =
        elim (Bool-cases (d.lt (d.of_nano (pos 1)) (d.sub t1 t0))) [
          | inl wide ↦
              let num = sub-finite t0 elapsed z lo f in
              rw (wide, fraction)
                (
                  zero-le-div (d.sub elapsed t0) (d.sub t1 t0) num (zero-le-sub t0 elapsed f0 f lo)
                      (positive _ wide),
                  div-le-one (d.sub elapsed t0) (d.sub t1 t0) num (sub-le-sub elapsed t1 t0 f0 hi)
                      (positive _ wide),
                )
          | inr narrow ↦ rw (narrow, fraction) (zero_refl, zero-le-one)
        ]

    -- Ahead of its segment it is not positive.
    pub fraction_early :
        (elapsed t0 t1 : F)
        → IsFinite elapsed
        → IsFinite t0
        → IsModest (d.sub elapsed t0)
        → IsFinite (d.sub elapsed t0)
        → elapsed ≼ t0
        → IsFinite (fraction elapsed t0 t1) × (fraction elapsed t0 t1 ≼ nought)
    unfolding fraction
    fraction_early elapsed t0 t1 f f0 m num h =
        elim (Bool-cases (d.lt (d.of_nano (pos 1)) (d.sub t1 t0))) [
          | inl wide ↦
              rw (wide, fraction)
                (
                  laws.div-IsFinite_modest _ _ m wide,
                  div-le-zero (d.sub elapsed t0) (d.sub t1 t0) num (sub-le-zero elapsed t0 f f0 h)
                      (positive _ wide),
                )
          | inr narrow ↦ rw (narrow, fraction) (of_nano-finite (pos 0) (omega arith), zero_refl)
        ]
