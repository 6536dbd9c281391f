-- ===== src/Kinematics/Hand/Locality.antt =====
-- Which joints of the hand `compute_hand_fk_from_joint_pos` (src/fk_solver.cpp) uses for a finger.
use franka_kistar_r_exp_gwb.Common.{ℕ, zero, suc, ◌+◌, ◌*◌, ◌<◌, ◌≡◌, refl, ap, arith, Array}
use franka_kistar_r_exp_gwb.Common.Int.{ℤ}
use franka_kistar_r_exp_gwb.Double.{Double}
use franka_kistar_r_exp_gwb.Kinematics.Transform.{Maths}
use franka_kistar_r_exp_gwb.Kinematics.Hand.{
  Pose, to_radian_from_encoder, thumb_transform, solve_thumb, finger_transform, solve_finger_common,
  compute_hand_fk_from_joint_pos,
}

module _ {F : Type 0} ⦃d : Double F⦄ ⦃m : Maths F⦄ where
  thumb_same :
      (q r : Array F)
      → q 0 ≡ r 0
      → q 1 ≡ r 1
      → q 2 ≡ r 2
      → q 3 ≡ r 3
      → solve_thumb q ≡ solve_thumb r
  unfolding solve_thumb thumb_transform
  thumb_same q r a b c e = rw (a, b, c, e) refl

  finger_same :
      (roll pitch yaw x y z : F) (q r : Array F)
      → q 0 ≡ r 0
      → q 1 ≡ r 1
      → q 2 ≡ r 2
      → q 3 ≡ r 3
      → solve_finger_common roll pitch yaw x y z q ≡ solve_finger_common roll pitch yaw x y z r
  unfolding solve_finger_common finger_transform
  finger_same roll pitch yaw x y z q r a b c e = rw (a, b, c, e) refl

  -- The pose of a finger depends on its own four joints alone, and nothing behind the fourth pose
  -- is written.
  pub compute_hand_fk_from_joint_pos_local :
      (a b : Array ℤ) (tips : Array (Pose F)) (finger : ℕ)
      → ((i : ℕ) → i < 4 → a (4 * finger + i) ≡ b (4 * finger + i))
      → (compute_hand_fk_from_joint_pos a tips finger
          ≡ compute_hand_fk_from_joint_pos b tips finger)
        × (compute_hand_fk_from_joint_pos a tips (suc (suc (suc (suc finger))))
            ≡ tips (suc (suc (suc (suc finger)))))
  unfolding compute_hand_fk_from_joint_pos
  compute_hand_fk_from_joint_pos_local a b tips zero h =
      let e = λ (i : ℕ) (l : i < 4). ap (to_radian_from_encoder {F = F}) (h i l) in
      (
        thumb_same _ _ (e 0 (omega arith)) (e 1 (omega arith)) (e 2 (omega arith))
            (e 3 (omega arith)),
        refl,
      )
  compute_hand_fk_from_joint_pos_local a b tips (suc zero) h =
      let e = λ (i : ℕ) (l : i < 4). ap (to_radian_from_encoder {F = F}) (h i l) in
      (
        finger_same _ _ _ _ _ _ _ _ (e 0 (omega arith)) (e 1 (omega arith)) (e 2 (omega arith))
            (e 3 (omega arith)),
        refl,
      )
  compute_hand_fk_from_joint_pos_local a b tips (suc (suc zero)) h =
      let e = λ (i : ℕ) (l : i < 4). ap (to_radian_from_encoder {F = F}) (h i l) in
      (
        finger_same _ _ _ _ _ _ _ _ (e 0 (omega arith)) (e 1 (omega arith)) (e 2 (omega arith))
            (e 3 (omega arith)),
        refl,
      )
  compute_hand_fk_from_joint_pos_local a b tips (suc (suc (suc zero))) h =
      let e = λ (i : ℕ) (l : i < 4). ap (to_radian_from_encoder {F = F}) (h i l) in
      (
        finger_same _ _ _ _ _ _ _ _ (e 0 (omega arith)) (e 1 (omega arith)) (e 2 (omega arith))
            (e 3 (omega arith)),
        refl,
      )
  compute_hand_fk_from_joint_pos_local a b tips (suc (suc (suc (suc k)))) h = (refl, refl)
