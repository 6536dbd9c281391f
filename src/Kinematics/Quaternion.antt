-- ===== src/Kinematics/Quaternion.antt =====
-- src/fk_solver.cpp: `rotmat_to_quat_wxyz`.
use franka_kistar_r_exp_gwb.Common.{zero, suc, ◌&&◌, Array, if◌then◌else◌}
use franka_kistar_r_exp_gwb.Common.Int.{pos}
use franka_kistar_r_exp_gwb.Double.{Double, nought, one}
use franka_kistar_r_exp_gwb.Kinematics.Transform.{Maths, ◌⊕◌, ◌⊖◌, ◌⊗◌}
pub mod Products
pub mod Inverse

-- w, x, y, z
pub record Quaternion (F : Type 0) : Type 0 where
  pub w : F
  pub x : F
  pub y : F
  pub z : F

module _ {F : Type 0} ⦃d : Double F⦄ ⦃m : Maths F⦄ where
  abbrev pub two : F
  two = d.of_nano (pos 2_000_000_000)

  abbrev pub quarter : F
  quarter = d.of_nano (pos 250_000_000)

  abbrev pub divisor : F → F
  divisor radicand = m.sqrt radicand ⊗ two

  -- qw, qx, qy and qz before the normalisation.
  unfoldable pub rotmat_to_quat : Array (Array F) → Quaternion F
  rotmat_to_quat r =
      let trace = r 0 0 ⊕ r 1 1 ⊕ r 2 2 in
      if d.lt nought trace
      then (let s = divisor (trace ⊕ one) in
          record {
            w = quarter ⊗ s;
            x = d.div (r 2 1 ⊖ r 1 2) s;
            y = d.div (r 0 2 ⊖ r 2 0) s;
            z = d.div (r 1 0 ⊖ r 0 1) s;
          })
      else if d.lt (r 1 1) (r 0 0) && d.lt (r 2 2) (r 0 0)
      then (let s = divisor (one ⊕ r 0 0 ⊖ r 1 1 ⊖ r 2 2) in
          record {
            w = d.div (r 2 1 ⊖ r 1 2) s;
            x = quarter ⊗ s;
            y = d.div (r 0 1 ⊕ r 1 0) s;
            z = d.div (r 0 2 ⊕ r 2 0) s;
          })
      else if d.lt (r 2 2) (r 1 1)
      then (let s = divisor (one ⊕ r 1 1 ⊖ r 0 0 ⊖ r 2 2) in
          record {
            w = d.div (r 0 2 ⊖ r 2 0) s;
            x = d.div (r 0 1 ⊕ r 1 0) s;
            y = quarter ⊗ s;
            z = d.div (r 1 2 ⊕ r 2 1) s;
          })
      else (let s = divisor (one ⊕ r 2 2 ⊖ r 0 0 ⊖ r 1 1) in
          record {
            w = d.div (r 1 0 ⊖ r 0 1) s;
            x = d.div (r 0 2 ⊕ r 2 0) s;
            y = d.div (r 1 2 ⊕ r 2 1) s;
            z = quarter ⊗ s;
          })

  abbrev pub norm_of : Quaternion F → F
  norm_of q = m.sqrt (q.w ⊗ q.w ⊕ q.x ⊗ q.x ⊕ q.y ⊗ q.y ⊕ q.z ⊗ q.z)

  -- The array `quat`, which starts with w.
  unfoldable pub rotmat_to_quat_wxyz : Array (Array F) → Array F
  unfolding rotmat_to_quat
  rotmat_to_quat_wxyz r =
      let q = rotmat_to_quat r in
      let norm = norm_of q in
      λ k. elim k [
        | zero ↦ d.to_float (d.div q.w norm)
        | suc zero ↦ d.to_float (d.div q.x norm)
        | suc (suc zero) ↦ d.to_float (d.div q.y norm)
        | suc (suc (suc _)) ↦ d.to_float (d.div q.z norm)
      ]
