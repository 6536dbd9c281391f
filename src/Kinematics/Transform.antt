-- ===== src/Kinematics/Transform.antt =====
-- src/fk_solver.cpp: `Transform` and the functions that make and compose transforms. A matrix is a
-- function of the row and the column, of which the code uses 0, 1 and 2.
use franka_kistar_r_exp_gwb.Common.{ℕ, zero, suc, Array}
use franka_kistar_r_exp_gwb.Common.Int.{ℤ, pos}
use franka_kistar_r_exp_gwb.Double.{Double, nought, one}
pub mod Exact
pub mod Maps
pub mod Rigid

-- What the code uses of <cmath>, the sign change, and `kPi`.
pub record Maths (F : Type 0) : Type 0 where
  pub cos : F → F
  pub sin : F → F
  pub sqrt : F → F
  pub neg : F → F
  pub pi : F

pub record Transform (F : Type 0) : Type 0 where
  pub r : Array (Array F)
  pub p : Array F

abbrev pub row : {A : Type 0} → A → A → A → Array A
row a b c zero = a
row a b c (suc zero) = b
row a b c (suc (suc k)) = c

module _ {F : Type 0} ⦃d : Double F⦄ where
  infixl 65 ◌⊕◌ ◌⊖◌
  infixl 70 ◌⊗◌
  abbrev pub ◌⊕◌ : F → F → F
  a ⊕ b = d.add a b

  abbrev pub ◌⊖◌ : F → F → F
  a ⊖ b = d.sub a b

  abbrev pub ◌⊗◌ : F → F → F
  a ⊗ b = d.mul a b

  unfoldable pub identity : Transform F
  identity = record {
    r = row (row one nought nought) (row nought one nought) (row nought nought one);
    p = row nought nought nought;
  }

  unfoldable pub compose : Transform F → Transform F → Transform F
  compose a b = record {
    r = λ i j. a.r i 0 ⊗ b.r 0 j ⊕ a.r i 1 ⊗ b.r 1 j ⊕ a.r i 2 ⊗ b.r 2 j;
    p = λ i. a.r i 0 ⊗ b.p 0 ⊕ a.r i 1 ⊗ b.p 1 ⊕ a.r i 2 ⊗ b.p 2 ⊕ a.p i;
  }

module _ {F : Type 0} ⦃d : Double F⦄ ⦃m : Maths F⦄ where
  unfoldable pub make_rpy_xyz : F → F → F → F → F → F → Transform F
  make_rpy_xyz roll pitch yaw x y z =
      let cr = m.cos roll in
      let sr = m.sin roll in
      let cp = m.cos pitch in
      let sp = m.sin pitch in
      let cy = m.cos yaw in
      let sy = m.sin yaw in
      record {
        r =
            row (row (cy ⊗ cp) (cy ⊗ sp ⊗ sr ⊖ sy ⊗ cr) (cy ⊗ sp ⊗ cr ⊕ sy ⊗ sr))
              (row (sy ⊗ cp) (sy ⊗ sp ⊗ sr ⊕ cy ⊗ cr) (sy ⊗ sp ⊗ cr ⊖ cy ⊗ sr))
              (row (m.neg sp) (cp ⊗ sr) (cp ⊗ cr));
        p = row x y z;
      }

  unfoldable pub axis_rotation : F → F → F → F → Transform F
  axis_rotation ax ay az q =
      let c = m.cos q in
      let s = m.sin q in
      let v = one ⊖ c in
      record {
        r =
            row (row (ax ⊗ ax ⊗ v ⊕ c) (ax ⊗ ay ⊗ v ⊖ az ⊗ s) (ax ⊗ az ⊗ v ⊕ ay ⊗ s))
              (row (ay ⊗ ax ⊗ v ⊕ az ⊗ s) (ay ⊗ ay ⊗ v ⊕ c) (ay ⊗ az ⊗ v ⊖ ax ⊗ s))
              (row (az ⊗ ax ⊗ v ⊖ ay ⊗ s) (az ⊗ ay ⊗ v ⊕ ax ⊗ s) (az ⊗ az ⊗ v ⊕ c));
        p = row nought nought nought;
      }

  unfoldable pub fixed_then_revolute : F → F → F → F → F → F → F → F → F → F → Transform F
  fixed_then_revolute roll pitch yaw x y z ax ay az q =
      compose (make_rpy_xyz roll pitch yaw x y z) (axis_rotation ax ay az q)
