-- ===== src/Kinematics/Transform/Maps.antt =====
-- The transforms of src/fk_solver.cpp as maps of points, in exact arithmetic.
use franka_kistar_r_exp_gwb.Common.{ℕ, zero, suc, ◌≡◌, fun_ext, Array}
use franka_kistar_r_exp_gwb.Double.{Double, nought, one}
use franka_kistar_r_exp_gwb.Kinematics.Transform.{
  Maths, Transform, row, ◌⊕◌, ◌⊖◌, ◌⊗◌, identity, compose, make_rpy_xyz, axis_rotation,
}
use franka_kistar_r_exp_gwb.Kinematics.Transform.Exact.{IsExact, ring_laws, add_laws, mul-add}

module _ {F : Type 0} ⦃d : Double F⦄ ⦃m : Maths F⦄ where
  -- Where a transform moves a point.
  unfoldable pub apply : Transform F → Array F → Array F
  apply t v i = t.r i 0 ⊗ v 0 ⊕ t.r i 1 ⊗ v 1 ⊕ t.r i 2 ⊗ v 2 ⊕ t.p i

  -- The turns by an angle about the axes x, y and z.
  abbrev pub turn_x : F → Array F → Array F
  turn_x q v = row (v 0) (m.cos q ⊗ v 1 ⊖ m.sin q ⊗ v 2) (m.sin q ⊗ v 1 ⊕ m.cos q ⊗ v 2)

  abbrev pub turn_y : F → Array F → Array F
  turn_y q v = row (m.sin q ⊗ v 2 ⊕ m.cos q ⊗ v 0) (v 1) (m.cos q ⊗ v 2 ⊖ m.sin q ⊗ v 0)

  abbrev pub turn_z : F → Array F → Array F
  turn_z q v = row (m.cos q ⊗ v 0 ⊖ m.sin q ⊗ v 1) (m.sin q ⊗ v 0 ⊕ m.cos q ⊗ v 1) (v 2)

  abbrev pub shift : F → F → F → Array F → Array F
  shift x y z v = row (v 0 ⊕ x) (v 1 ⊕ y) (v 2 ⊕ z)

module _ {F : Type 0} ⦃d : Double F⦄ ⦃m : Maths F⦄ ⦃h : IsExact F⦄ where
  column :
      (a b c x y z v : F) → (a ⊗ x ⊕ b ⊗ y ⊕ c ⊗ z) ⊗ v ≡ a ⊗ (x ⊗ v) ⊕ b ⊗ (y ⊗ v) ⊕ c ⊗ (z ⊗ v)
  column a b c x y z v = simp ring_laws

  spread : (a x y z t : F) → a ⊗ (x ⊕ y ⊕ z ⊕ t) ≡ a ⊗ x ⊕ a ⊗ y ⊕ a ⊗ z ⊕ a ⊗ t
  spread a x y z t = simp (mul-add)

  regroup :
      (a b c a1 b1 c1 a2 b2 c2 p q r t : F)
      → (a ⊕ b ⊕ c) ⊕ (a1 ⊕ b1 ⊕ c1) ⊕ (a2 ⊕ b2 ⊕ c2) ⊕ (p ⊕ q ⊕ r ⊕ t)
        ≡ (a ⊕ a1 ⊕ a2 ⊕ p) ⊕ (b ⊕ b1 ⊕ b2 ⊕ q) ⊕ (c ⊕ c1 ⊕ c2 ⊕ r) ⊕ t
  regroup a b c a1 b1 c1 a2 b2 c2 p q r t = simp add_laws

  -- To compose transforms is to apply one behind the other.
  pub compose-apply :
      (a b : Transform F) (v : Array F) → apply (compose a b) v ≡ apply a (apply b v)
  unfolding compose apply
  compose-apply a b v = fun_ext (λ i.
      rw
        (
          column (a.r i 0) (a.r i 1) (a.r i 2) (b.r 0 0) (b.r 1 0) (b.r 2 0) (v 0),
          column (a.r i 0) (a.r i 1) (a.r i 2) (b.r 0 1) (b.r 1 1) (b.r 2 1) (v 1),
          column (a.r i 0) (a.r i 1) (a.r i 2) (b.r 0 2) (b.r 1 2) (b.r 2 2) (v 2),
          spread (a.r i 0) (b.r 0 0 ⊗ v 0) (b.r 0 1 ⊗ v 1) (b.r 0 2 ⊗ v 2) (b.p 0),
          spread (a.r i 1) (b.r 1 0 ⊗ v 0) (b.r 1 1 ⊗ v 1) (b.r 1 2 ⊗ v 2) (b.p 1),
          spread (a.r i 2) (b.r 2 0 ⊗ v 0) (b.r 2 1 ⊗ v 1) (b.r 2 2 ⊗ v 2) (b.p 2),
        )
        (regroup _ _ _ _ _ _ _ _ _ _ _ _ _))

  by_rows :
      (f g : Array F)
      → f 0 ≡ g 0
      → f 1 ≡ g 1
      → ((k : ℕ) → f (suc (suc k)) ≡ g (suc (suc k)))
      → f ≡ g
  by_rows f g a b c = fun_ext (go a b c)
    where
      go :
          f 0 ≡ g 0
          → f 1 ≡ g 1
          → ((k : ℕ) → f (suc (suc k)) ≡ g (suc (suc k)))
          → (i : ℕ) → f i ≡ g i
      go a b c zero = a
      go a b c (suc zero) = b
      go a b c (suc (suc k)) = c k

  pub identity-apply : (v : Array F) → apply identity v ≡ row (v 0) (v 1) (v 2)
  unfolding identity apply
  identity-apply v = by_rows _ _ (simp ring_laws) (simp ring_laws) (λ k. simp ring_laws)

  rpy_0 :
      (cr sr cp sp cy sy a b c x : F)
      → cy ⊗ cp ⊗ a ⊕ (cy ⊗ sp ⊗ sr ⊖ sy ⊗ cr) ⊗ b ⊕ (cy ⊗ sp ⊗ cr ⊕ sy ⊗ sr) ⊗ c ⊕ x
        ≡ cy ⊗ (sp ⊗ (sr ⊗ b ⊕ cr ⊗ c) ⊕ cp ⊗ a) ⊖ sy ⊗ (cr ⊗ b ⊖ sr ⊗ c) ⊕ x
  rpy_0 cr sr cp sp cy sy a b c x = simp ring_laws

  rpy_1 :
      (cr sr cp sp cy sy a b c y : F)
      → sy ⊗ cp ⊗ a ⊕ (sy ⊗ sp ⊗ sr ⊕ cy ⊗ cr) ⊗ b ⊕ (sy ⊗ sp ⊗ cr ⊖ cy ⊗ sr) ⊗ c ⊕ y
        ≡ sy ⊗ (sp ⊗ (sr ⊗ b ⊕ cr ⊗ c) ⊕ cp ⊗ a) ⊕ cy ⊗ (cr ⊗ b ⊖ sr ⊗ c) ⊕ y
  rpy_1 cr sr cp sp cy sy a b c y = simp ring_laws

  rpy_2 :
      (cr sr cp sp a b c z : F)
      → m.neg sp ⊗ a ⊕ cp ⊗ sr ⊗ b ⊕ cp ⊗ cr ⊗ c ⊕ z ≡ cp ⊗ (sr ⊗ b ⊕ cr ⊗ c) ⊖ sp ⊗ a ⊕ z
  rpy_2 cr sr cp sp a b c z = simp ring_laws

  -- `make_rpy_xyz` turns about x by the roll, then about y by the pitch and about z by the yaw, and
  -- then shifts, as URDF has it.
  pub make_rpy_xyz-apply :
      (roll pitch yaw x y z : F) (v : Array F)
      → apply (make_rpy_xyz roll pitch yaw x y z) v
        ≡ shift x y z (turn_z yaw (turn_y pitch (turn_x roll v)))
  unfolding make_rpy_xyz apply
  make_rpy_xyz-apply roll pitch yaw x y z v =
      by_rows _ _ (rpy_0 _ _ _ _ _ _ (v 0) (v 1) (v 2) x) (rpy_1 _ _ _ _ _ _ (v 0) (v 1) (v 2) y)
        (λ k. rpy_2 _ _ _ _ (v 0) (v 1) (v 2) z)

  pub axis_rotation-x :
      (q : F) (v : Array F) → apply (axis_rotation one nought nought q) v ≡ turn_x q v
  unfolding axis_rotation apply
  axis_rotation-x q v = by_rows _ _ (simp ring_laws) (simp ring_laws) (λ k. simp ring_laws)

  pub axis_rotation-y :
      (q : F) (v : Array F) → apply (axis_rotation nought one nought q) v ≡ turn_y q v
  unfolding axis_rotation apply
  axis_rotation-y q v = by_rows _ _ (simp ring_laws) (simp ring_laws) (λ k. simp ring_laws)

  pub axis_rotation-z :
      (q : F) (v : Array F) → apply (axis_rotation nought nought one q) v ≡ turn_z q v
  unfolding axis_rotation apply
  axis_rotation-z q v = by_rows _ _ (simp ring_laws) (simp ring_laws) (λ k. simp ring_laws)
