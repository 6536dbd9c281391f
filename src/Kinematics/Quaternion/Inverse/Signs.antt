-- ===== src/Kinematics/Quaternion/Inverse/Signs.antt =====
-- The quotients of `rotmat_to_quat_wxyz` (src/fk_solver.cpp), in exact arithmetic, up to the sign
-- of the root.
use franka_kistar_r_exp_gwb.Common.{◌≡◌, ◌≢◌, refl, sym, ap, ◌∙◌, ◌⊎◌, inl, inr, Bool, true, false}
use franka_kistar_r_exp_gwb.Double.{Double, nought, one}
use franka_kistar_r_exp_gwb.Kinematics.Transform.{Maths, ◌⊕◌, ◌⊗◌}
use franka_kistar_r_exp_gwb.Kinematics.Transform.Exact.{
  IsExact, ring_laws, mul-neg, mul-one, neg-neg, neg_zero,
}
use franka_kistar_r_exp_gwb.Kinematics.Quaternion.{Quaternion, two, quarter, divisor, norm_of}
use franka_kistar_r_exp_gwb.Kinematics.Quaternion.Inverse.Sums.{
  twice, fourfold, square_twice, IsUnit,
}

-- Square roots of squares up to the sign, quotients without remainder, and the constants 2 and 1/4.
pub record IsField (F : Type 0) ⦃d : Double F⦄ ⦃m : Maths F⦄ : Type 0 where
  pub sqrt-square : (a : F) → (m.sqrt (a ⊗ a) ≡ a) ⊎ (m.sqrt (a ⊗ a) ≡ m.neg a)
  pub div-mul : (a b : F) → b ≢ nought → d.div (a ⊗ b) b ≡ a
  pub two-eq : two ≡ one {F = F} ⊕ one
  pub quarter-mul : (a : F) → quarter ⊗ (a ⊕ a ⊕ (a ⊕ a)) ≡ a

abbrev pub product_sign : Bool → Bool → Bool
product_sign true c = c
product_sign false true = false
product_sign false false = true

-- Quotients by the divisor, whichever root was taken.
module _ {F : Type 0} ⦃d : Double F⦄ ⦃m : Maths F⦄ where
  abbrev pub signed : Bool → F → F
  signed true a = a
  signed false a = m.neg a

  -- The components are those of `q`, or all of them have the other sign.
  abbrev pub AgreesUpTo : Bool → Quaternion F → Quaternion F → Type 0
  AgreesUpTo b p q =
      (p.w ≡ signed b q.w) × (p.x ≡ signed b q.x) × (p.y ≡ signed b q.y) × (p.z ≡ signed b q.z)

  module _ ⦃h : IsExact F⦄ (k : IsField F) where
    root_of : (a : F) → (b : Bool) × (m.sqrt (a ⊗ a) ≡ signed b a)
    root_of a = elim (k.sqrt-square a) [ inl e ↦ (true, e) | inr e ↦ (false, e) ]

    signed-mul : (b : Bool) (x y : F) → x ⊗ y ≡ signed b x ⊗ signed b y
    signed-mul true x y = refl
    signed-mul false x y = simp ring_laws

    doubled : (b : Bool) (x : F) → signed b x ⊗ two ≡ signed b (twice x)
    doubled true x = rw k.two-eq (simp ring_laws)
    doubled false x = rw k.two-eq (simp ring_laws)

    divisor_lem :
        (a r : F) → r ≡ fourfold (a ⊗ a) → (b : Bool) × (divisor r ≡ signed b (fourfold a))
    divisor_lem a r e =
        let (b, root) = root_of (twice a) in
        (
          b,
          ap (λ x. x ⊗ two) (ap (λ x. m.sqrt x) (e ∙ sym (square_twice a)) ∙ root)
              ∙ doubled b (twice a),
        )

    quotient :
        (b : Bool) (x y n s : F) → s ≢ nought → s ≡ signed b y → n ≡ x ⊗ y → d.div n s ≡ signed b x
    quotient b x y n s nz e f =
        ap (λ u. d.div u s) (f ∙ signed-mul b x y ∙ ap (λ u. signed b x ⊗ u) (sym e))
        ∙ k.div-mul (signed b x) s nz

    quartered : (b : Bool) (a s : F) → s ≡ signed b (fourfold a) → quarter ⊗ s ≡ signed b a
    quartered true a s e = ap (λ x. quarter ⊗ x) e ∙ k.quarter-mul a
    quartered false a s e =
        ap (λ x. quarter ⊗ x) e ∙ mul-neg quarter (fourfold a) ∙ ap (λ x. m.neg x) (k.quarter-mul a)

    square_sum :
        (b : Bool) (p q : Quaternion F)
        → AgreesUpTo b p q
        → p.w ⊗ p.w ⊕ p.x ⊗ p.x ⊕ p.y ⊗ p.y ⊕ p.z ⊗ p.z
          ≡ q.w ⊗ q.w ⊕ q.x ⊗ q.x ⊕ q.y ⊗ q.y ⊕ q.z ⊗ q.z
    square_sum true p q (w, x, y, z) = rw (w, x, y, z) refl
    square_sum false p q (w, x, y, z) = rw (w, x, y, z) (simp ring_laws)

    pub norm_lem :
        (b : Bool) (p q : Quaternion F)
        → IsUnit q
        → AgreesUpTo b p q
        → (c : Bool) × (norm_of p ≡ signed c one)
    norm_lem b p q unit same =
        let (c, root) = root_of one in
        (c, ap (λ x. m.sqrt x) (square_sum b p q same ∙ unit ∙ sym (mul-one one)) ∙ root)

    signed_nonzero : (c : Bool) → one {F = F} ≢ nought → signed c one ≢ nought {F = F}
    signed_nonzero true nz e = nz e
    signed_nonzero false nz e = nz (sym (neg-neg one) ∙ ap (λ x. m.neg x) e ∙ neg_zero)

    signed-signed : (b c : Bool) (x : F) → signed c (signed b x) ≡ signed (product_sign b c) x
    signed-signed true true x = refl
    signed-signed true false x = refl
    signed-signed false true x = refl
    signed-signed false false x = neg-neg x

    pub quotients :
        (a x y z r n₁ n₂ n₃ : F)
        → r ≡ fourfold (a ⊗ a)
        → divisor r ≢ nought
        → n₁ ≡ x ⊗ fourfold a
        → n₂ ≡ y ⊗ fourfold a
        → n₃ ≡ z ⊗ fourfold a
        → (b : Bool) × (quarter ⊗ divisor r ≡ signed b a)
          × (d.div n₁ (divisor r) ≡ signed b x)
          × (d.div n₂ (divisor r) ≡ signed b y)
          × (d.div n₃ (divisor r) ≡ signed b z)
    quotients a x y z r n₁ n₂ n₃ e nz e₁ e₂ e₃ =
        let (b, s) = divisor_lem a r e in
        (
          b,
          quartered b a (divisor r) s,
          quotient b x (fourfold a) n₁ (divisor r) nz s e₁,
          quotient b y (fourfold a) n₂ (divisor r) nz s e₂,
          quotient b z (fourfold a) n₃ (divisor r) nz s e₃,
        )

    pub normalised :
        (b c : Bool) (u v n : F)
        → one {F = F} ≢ nought
        → n ≡ signed c one
        → u ≡ signed b v
        → d.div u n ≡ signed (product_sign b c) v
    normalised b c u v n distinct e f =
        quotient c (signed b v) one u n (λ z. signed_nonzero c distinct (sym e ∙ z)) e
          (f ∙ sym (mul-one (signed b v)))
        ∙ signed-signed b c v
