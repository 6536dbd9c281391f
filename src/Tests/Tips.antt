-- ===== src/Tests/Tips.antt =====
-- Tests of the fingertips' poses.
use franka_kistar_r_exp_gwb.Common.{zero, suc, ◌*◌, Array}
use franka_kistar_r_exp_gwb.Common.Int.{ℤ, pos, negsuc}
use franka_kistar_r_exp_gwb.Kinematics.Hand.{Pose}
use franka_kistar_r_exp_gwb.Tests.Residues.{Residue, r0, residues, residue_maths, residues-IsExact}
use franka_kistar_r_exp_gwb.Tests.Exact.{whole, quarter_turns, whole-IsExact}

abbrev bent : Array ℤ
bent i = pos (i * 2)

abbrev nowhere : Array (Pose Residue)
nowhere k = record { pos = λ _. r0; quat = λ _. r0 }

abbrev angles : Array ℤ
angles zero = pos 1
angles (suc zero) = pos 2
angles (suc (suc k)) = negsuc 0
