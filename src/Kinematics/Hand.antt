-- ===== src/Kinematics/Hand.antt =====
-- src/fk_solver.cpp: the chains of the fingers, and `compute_hand_fk_from_joint_pos`.
use franka_kistar_r_exp_gwb.Common.{ℕ, zero, suc, ◌+◌, Array}
use franka_kistar_r_exp_gwb.Common.Int.{ℤ, pos, negsuc}
use franka_kistar_r_exp_gwb.Double.{Double, nought, one}
use franka_kistar_r_exp_gwb.Kinematics.Transform.{
  Maths, Transform, ◌⊗◌, identity, compose, make_rpy_xyz, fixed_then_revolute,
}
use franka_kistar_r_exp_gwb.Kinematics.Quaternion.{rotmat_to_quat_wxyz}
pub mod Chain
pub mod Locality
pub mod Tips

-- The position and the orientation that a fingertip gets.
pub record Pose (F : Type 0) : Type 0 where
  pub pos : Array F
  pub quat : Array F

module _ {F : Type 0} ⦃d : Double F⦄ ⦃m : Maths F⦄ where
  unfoldable pub to_radian_from_encoder : ℤ → F
  to_radian_from_encoder enc = d.of_int enc ⊗ d.div m.pi (d.of_nano (ℤ.pos 8_192_000_000_000))

  abbrev tip_of : Transform F → Pose F
  tip_of t = record { pos = λ k. d.to_float (t.p k); quat = rotmat_to_quat_wxyz t.r }

  -- The transform `t` of `solve_thumb`.
  unfoldable pub thumb_transform : Array F → Transform F
  thumb_transform q =
      let n = d.of_nano in
      let o = nought in
      let t0 = compose identity (make_rpy_xyz o o o o o (n (ℤ.pos 71_000_000))) in
      let t1 = compose t0 (
        make_rpy_xyz (n (negsuc 87_299_999)) o o (n (negsuc 23_249_999)) (n (ℤ.pos 12_240_000))
          (n (negsuc 29_879_999))) in
      let t2 = compose t1 (
        fixed_then_revolute (n (negsuc 1_570_799_999)) o o (n (ℤ.pos 19_700_000))
          (n (ℤ.pos 2_000_000)) o o one o (q 0)) in
      let t3 =
        compose t2 (
          fixed_then_revolute o o o (n (negsuc 1_999_999)) o (n (ℤ.pos 36_000_000)) o o one
            (q 1)) in
      let t4 =
        compose t3 (
          fixed_then_revolute o o o (n (ℤ.pos 2_000_000)) o (n (ℤ.pos 10_200_000)) o one o (q 2)) in
      let t5 = compose t4 (fixed_then_revolute o o o o o (n (ℤ.pos 33_500_000)) o one o (q 3)) in
      compose t5 (make_rpy_xyz o o o (n (negsuc 1_999_999)) o (n (ℤ.pos 10_000_000)))

  unfoldable pub solve_thumb : Array F → Pose F
  unfolding thumb_transform
  solve_thumb q = tip_of (thumb_transform q)

  -- The transform `t` of `solve_finger_common`.
  unfoldable pub finger_transform : F → F → F → F → F → F → Array F → Transform F
  finger_transform base_roll base_pitch base_yaw base_x base_y base_z q =
      let n = d.of_nano in
      let o = nought in
      let t0 = compose identity (make_rpy_xyz o o o o o (n (ℤ.pos 71_000_000))) in
      let t1 = compose t0 (make_rpy_xyz base_roll base_pitch base_yaw base_x base_y base_z) in
      let t2 =
        compose t1 (
          fixed_then_revolute o o o (n (ℤ.pos 23_250_000)) o (n (ℤ.pos 4_700_000)) one o o (q 0)) in
      let t3 =
        compose t2 (
          fixed_then_revolute o o o (n (ℤ.pos 2_000_000)) o (n (ℤ.pos 19_500_000)) o one o (q 1)) in
      let t4 = compose t3 (fixed_then_revolute o o o o o (n (ℤ.pos 33_500_000)) o one o (q 2)) in
      let t5 = compose t4 (make_rpy_xyz o o o o o (n (ℤ.pos 26_700_000))) in
      let t6 = compose t5 (fixed_then_revolute o o o o o o o one o (q 3)) in
      compose t6 (make_rpy_xyz o o o (n (negsuc 1_999_999)) o (n (ℤ.pos 10_000_000)))

  unfoldable pub solve_finger_common : F → F → F → F → F → F → Array F → Pose F
  unfolding finger_transform
  solve_finger_common base_roll base_pitch base_yaw base_x base_y base_z q =
      tip_of (finger_transform base_roll base_pitch base_yaw base_x base_y base_z q)

  -- &q[k]
  abbrev from_index : ℕ → Array F → Array F
  from_index k q i = q (k + i)

  -- The poses of thumb, index, middle and ring finger; nothing is written behind the fourth.
  unfoldable pub compute_hand_fk_from_joint_pos : Array ℤ → Array (Pose F) → Array (Pose F)
  compute_hand_fk_from_joint_pos joint_pos tips =
      let q = λ (i : ℕ). to_radian_from_encoder (joint_pos i) in
      let n = d.of_nano in
      let o = nought in
      λ k. elim k [
        | zero ↦ solve_thumb q
        | suc zero ↦
            solve_finger_common (n (negsuc 87_299_999)) o o (n (negsuc 23_249_999))
              (n (ℤ.pos 29_350_000)) (n (negsuc 399_999)) (from_index 4 q)
        | suc (suc zero) ↦ solve_finger_common o o o (n (negsuc 23_249_999)) o o (from_index 8 q)
        | suc (suc (suc zero)) ↦
            solve_finger_common (n (ℤ.pos 87_300_000)) o o (n (negsuc 23_249_999))
              (n (negsuc 29_349_999)) (n (negsuc 399_999)) (from_index 12 q)
        | suc (suc (suc (suc j))) ↦ tips (suc (suc (suc (suc j))))
      ]
