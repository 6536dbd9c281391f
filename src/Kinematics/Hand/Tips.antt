-- ===== src/Kinematics/Hand/Tips.antt =====
-- What `compute_hand_fk_from_joint_pos` (src/fk_solver.cpp) computes, in exact arithmetic.
use franka_kistar_r_exp_gwb.Common.{ℕ, zero, suc, Array}
use franka_kistar_r_exp_gwb.Common.Int.{pos, negsuc}
use franka_kistar_r_exp_gwb.Double.{Double, nought}
use franka_kistar_r_exp_gwb.Kinematics.Transform.{Maths, Transform}
use franka_kistar_r_exp_gwb.Kinematics.Hand.Chain.{frame}

module _ (F : Type 0) ⦃d : Double F⦄ ⦃m : Maths F⦄ where
  abbrev pub origin : Array F
  origin k = nought

  -- The bases of index, middle and ring finger.
  abbrev pub base : ℕ → Array F → Array F
  base zero =
      frame (d.of_nano (negsuc 87_299_999)) nought nought (d.of_nano (negsuc 23_249_999))
        (d.of_nano (pos 29_350_000)) (d.of_nano (negsuc 399_999))
  base (suc zero) = frame nought nought nought (d.of_nano (negsuc 23_249_999)) nought nought
  base (suc (suc k)) =
      frame (d.of_nano (pos 87_300_000)) nought nought (d.of_nano (negsuc 23_249_999))
        (d.of_nano (negsuc 29_349_999)) (d.of_nano (negsuc 399_999))
