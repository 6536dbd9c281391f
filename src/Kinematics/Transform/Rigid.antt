-- ===== src/Kinematics/Transform/Rigid.antt =====
-- The transforms of src/fk_solver.cpp are rigid motions, in exact arithmetic.
use franka_kistar_r_exp_gwb.Common.{◌≡◌, refl, sym, ap, ◌∙◌, Array}
use franka_kistar_r_exp_gwb.Double.{Double, nought}
use franka_kistar_r_exp_gwb.Kinematics.Transform.{Maths, ◌⊕◌, ◌⊖◌, ◌⊗◌}
use franka_kistar_r_exp_gwb.Kinematics.Transform.Exact.{
  IsExact, ring_laws, add_laws, one-mul, add-neg, add-zero, add_assoc, sub-eq, neg-add,
}
use franka_kistar_r_exp_gwb.Kinematics.Transform.Maps.{turn_x, turn_y, turn_z, shift}

module _ {F : Type 0} ⦃d : Double F⦄ where
  -- The square of the distance of two points.
  abbrev pub dist2 : Array F → Array F → F
  dist2 v w = (v 0 ⊖ w 0) ⊗ (v 0 ⊖ w 0) ⊕ (v 1 ⊖ w 1) ⊗ (v 1 ⊖ w 1) ⊕ (v 2 ⊖ w 2) ⊗ (v 2 ⊖ w 2)

  -- Distances stay as they are.
  abbrev pub IsRigid : (Array F → Array F) → Type 0
  IsRigid f = (v w : Array F) → dist2 (f v) (f w) ≡ dist2 v w

module _ {F : Type 0} ⦃d : Double F⦄ ⦃m : Maths F⦄ ⦃h : IsExact F⦄ where
  -- The cross terms of the squares cancel.
  squares :
      (p q u v : F)
      → p ⊗ q ≡ u ⊗ v
      → (p ⊖ q) ⊗ (p ⊖ q) ⊕ (u ⊕ v) ⊗ (u ⊕ v) ≡ (p ⊗ p ⊕ u ⊗ u) ⊕ (q ⊗ q ⊕ v ⊗ v)
  squares p q u v e = expand p q u v ∙ (rw (e, add-neg (u ⊗ v), add-zero nought) (add-zero _))
    where
      expand :
          (p q u v : F)
          → (p ⊖ q) ⊗ (p ⊖ q) ⊕ (u ⊕ v) ⊗ (u ⊕ v)
            ≡ ((p ⊗ p ⊕ u ⊗ u) ⊕ (q ⊗ q ⊕ v ⊗ v))
              ⊕ ((u ⊗ v ⊕ m.neg (p ⊗ q)) ⊕ (u ⊗ v ⊕ m.neg (p ⊗ q)))
      expand p q u v = simp ring_laws

  turned :
      (q a b : F)
      → (m.cos q ⊗ a ⊖ m.sin q ⊗ b) ⊗ (m.cos q ⊗ a ⊖ m.sin q ⊗ b)
          ⊕ (m.sin q ⊗ a ⊕ m.cos q ⊗ b) ⊗ (m.sin q ⊗ a ⊕ m.cos q ⊗ b)
        ≡ a ⊗ a ⊕ b ⊗ b
  turned q a b =
      squares (m.cos q ⊗ a) (m.sin q ⊗ b) (m.sin q ⊗ a) (m.cos q ⊗ b) (simp ring_laws)
      ∙ (factor (m.cos q) (m.sin q) a b ∙ (rw (h.cos-sin q, one-mul (a ⊗ a), one-mul (b ⊗ b)) refl))
    where
      factor :
          (c s a b : F)
          → ((c ⊗ a) ⊗ (c ⊗ a) ⊕ (s ⊗ a) ⊗ (s ⊗ a)) ⊕ ((s ⊗ b) ⊗ (s ⊗ b) ⊕ (c ⊗ b) ⊗ (c ⊗ b))
            ≡ (c ⊗ c ⊕ s ⊗ s) ⊗ (a ⊗ a) ⊕ (c ⊗ c ⊕ s ⊗ s) ⊗ (b ⊗ b)
      factor c s a b = simp ring_laws

  difference_minus :
      (c s a b a' b' : F) → (c ⊗ a ⊖ s ⊗ b) ⊖ (c ⊗ a' ⊖ s ⊗ b') ≡ c ⊗ (a ⊖ a') ⊖ s ⊗ (b ⊖ b')
  difference_minus c s a b a' b' = simp ring_laws

  difference_plus :
      (c s a b a' b' : F) → (s ⊗ a ⊕ c ⊗ b) ⊖ (s ⊗ a' ⊕ c ⊗ b') ≡ s ⊗ (a ⊖ a') ⊕ c ⊗ (b ⊖ b')
  difference_plus c s a b a' b' = simp ring_laws

  -- A turn of the differences in a plane.
  turned_apart :
      (q a b a' b' : F)
      → let c = m.cos q in
        let s = m.sin q in
        ((c ⊗ a ⊖ s ⊗ b) ⊖ (c ⊗ a' ⊖ s ⊗ b')) ⊗ ((c ⊗ a ⊖ s ⊗ b) ⊖ (c ⊗ a' ⊖ s ⊗ b'))
          ⊕ ((s ⊗ a ⊕ c ⊗ b) ⊖ (s ⊗ a' ⊕ c ⊗ b')) ⊗ ((s ⊗ a ⊕ c ⊗ b) ⊖ (s ⊗ a' ⊕ c ⊗ b'))
        ≡ (a ⊖ a') ⊗ (a ⊖ a') ⊕ (b ⊖ b') ⊗ (b ⊖ b')
  turned_apart q a b a' b' =
      rw
        (
          difference_minus (m.cos q) (m.sin q) a b a' b',
          difference_plus (m.cos q) (m.sin q) a b a' b',
        )
        (turned q (a ⊖ a') (b ⊖ b'))

  pub turn_z-IsRigid : (q : F) → IsRigid (turn_z q)
  turn_z-IsRigid q v w = rw (turned_apart q (v 0) (v 1) (w 0) (w 1)) refl

  pub turn_x-IsRigid : (q : F) → IsRigid (turn_x q)
  turn_x-IsRigid q v w =
      add_assoc _ _ _
      ∙ (ap (λ r. (v 0 ⊖ w 0) ⊗ (v 0 ⊖ w 0) ⊕ r) (turned_apart q (v 1) (v 2) (w 1) (w 2))
          ∙ sym (add_assoc _ _ _))

  pub turn_y-IsRigid : (q : F) → IsRigid (turn_y q)
  turn_y-IsRigid q v w =
      rotated _ _ _
      ∙ (ap (λ r. r ⊕ (v 1 ⊖ w 1) ⊗ (v 1 ⊖ w 1)) (turned_apart q (v 2) (v 0) (w 2) (w 0))
          ∙ sym (rotated _ _ _))
    where
      rotated : (a b c : F) → a ⊕ b ⊕ c ≡ c ⊕ a ⊕ b
      rotated a b c = simp add_laws

  pub shift-IsRigid : (x y z : F) → IsRigid (shift x y z)
  shift-IsRigid x y z v w = rw (same (v 0) (w 0) x, same (v 1) (w 1) y, same (v 2) (w 2) z) refl
    where
      apart : (a b x y : F) → (a ⊕ x) ⊕ (b ⊕ y) ≡ (a ⊕ b) ⊕ (x ⊕ y)
      apart a b x y = simp add_laws

      same : (a b x : F) → (a ⊕ x) ⊖ (b ⊕ x) ≡ a ⊖ b
      same a b x =
          rw
            (
              sub-eq (a ⊕ x) (b ⊕ x),
              neg-add b x,
              apart a (m.neg b) x (m.neg x),
              add-neg x,
              add-zero (a ⊕ m.neg b),
            )
            (sym (sub-eq a b))

  pub comp-IsRigid : (f g : Array F → Array F) → IsRigid f → IsRigid g → IsRigid (λ v. f (g v))
  comp-IsRigid f g p q v w = p (g v) (g w) ∙ q v w
