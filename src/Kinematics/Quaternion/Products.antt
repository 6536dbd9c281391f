-- ===== src/Kinematics/Quaternion/Products.antt =====
-- The quaternion that `rotmat_to_quat_wxyz` (src/fk_solver.cpp) computes, in exact arithmetic.
use franka_kistar_r_exp_gwb.Common.{
  ◌≡◌, ap, ◌∙◌, ◌⊎◌, inl, inr, ◌&&◌, Array, Bool-cases, if◌then◌else◌,
}
use franka_kistar_r_exp_gwb.Double.{Double, nought, one}
use franka_kistar_r_exp_gwb.Kinematics.Transform.{Maths, ◌⊕◌, ◌⊖◌, ◌⊗◌}
use franka_kistar_r_exp_gwb.Kinematics.Transform.Exact.{IsExact, mul_assoc, mul_comm}
use franka_kistar_r_exp_gwb.Kinematics.Quaternion.{Quaternion, quarter, divisor, rotmat_to_quat}

module _ {F : Type 0} ⦃d : Double F⦄ ⦃m : Maths F⦄ where
  -- Four times the product of `a` and `b` is `x`.
  abbrev pub IsQuarter : F → F → F → Type 0
  IsQuarter a b x = a ⊗ b ≡ quarter ⊗ x

  -- What the root is taken of.
  abbrev pub radicand_of : Array (Array F) → F
  radicand_of r =
      if d.lt nought (r 0 0 ⊕ r 1 1 ⊕ r 2 2)
      then r 0 0 ⊕ r 1 1 ⊕ r 2 2 ⊕ one
      else if d.lt (r 1 1) (r 0 0) && d.lt (r 2 2) (r 0 0)
      then one ⊕ r 0 0 ⊖ r 1 1 ⊖ r 2 2
      else if d.lt (r 2 2) (r 1 1)
      then one ⊕ r 1 1 ⊖ r 0 0 ⊖ r 2 2
      else one ⊕ r 2 2 ⊖ r 0 0 ⊖ r 1 1

  -- The products of one component with the others.
  abbrev pub HasProducts : Array (Array F) → Quaternion F → Type 0
  HasProducts r q =
      (IsQuarter q.w q.x (r 2 1 ⊖ r 1 2)
        × IsQuarter q.w q.y (r 0 2 ⊖ r 2 0)
        × IsQuarter q.w q.z (r 1 0 ⊖ r 0 1))
      ⊎ (IsQuarter q.x q.w (r 2 1 ⊖ r 1 2)
          × IsQuarter q.x q.y (r 0 1 ⊕ r 1 0)
          × IsQuarter q.x q.z (r 0 2 ⊕ r 2 0))
      ⊎ (IsQuarter q.y q.w (r 0 2 ⊖ r 2 0)
          × IsQuarter q.y q.x (r 0 1 ⊕ r 1 0)
          × IsQuarter q.y q.z (r 1 2 ⊕ r 2 1))
      ⊎ (IsQuarter q.z q.w (r 1 0 ⊖ r 0 1)
          × IsQuarter q.z q.x (r 0 2 ⊕ r 2 0)
          × IsQuarter q.z q.y (r 1 2 ⊕ r 2 1))

module _ {F : Type 0} ⦃d : Double F⦄ ⦃m : Maths F⦄ ⦃h : IsExact F⦄ where
  product_of : (x s : F) → d.div x s ⊗ s ≡ x → IsQuarter (quarter ⊗ s) (d.div x s) x
  product_of x s e =
      mul_assoc quarter s (d.div x s) ∙ ap (λ y. quarter ⊗ y) (mul_comm s (d.div x s) ∙ e)

  -- Whichever component the code computes first, its products with the other three are those that
  -- the matrix of a rotation gives, if quotients by the divisor are exact: the components and their
  -- signs belong together.
  pub rotmat_to_quat-HasProducts :
      (r : Array (Array F))
      → ((x : F) → d.div x (divisor (radicand_of r)) ⊗ divisor (radicand_of r) ≡ x)
      → HasProducts r (rotmat_to_quat r)
  unfolding rotmat_to_quat
  rotmat_to_quat-HasProducts r e = elim (Bool-cases (d.lt nought (r 0 0 ⊕ r 1 1 ⊕ r 2 2))) [
    | inl t ↦
        let f = rw t at e in
        rw t (inl (product_of _ _ (f _), product_of _ _ (f _), product_of _ _ (f _)))
    | inr t ↦ elim (Bool-cases (d.lt (r 1 1) (r 0 0) && d.lt (r 2 2) (r 0 0))) [
      | inl x ↦
          let f = rw (t, x) at e in
          rw (t, x) (inr (inl (product_of _ _ (f _), product_of _ _ (f _), product_of _ _ (f _))))
      | inr x ↦ elim (Bool-cases (d.lt (r 2 2) (r 1 1))) [
        | inl y ↦
            let f = rw (t, x, y) at e in
            rw (t, x, y)
              (inr (inr (inl (product_of _ _ (f _), product_of _ _ (f _), product_of _ _ (f _)))))
        | inr y ↦
            let f = rw (t, x, y) at e in
            rw (t, x, y)
              (inr (inr (inr (product_of _ _ (f _), product_of _ _ (f _), product_of _ _ (f _)))))
      ]
    ]
  ]
