-- ===== src/Kinematics/Quaternion/Inverse.antt =====
-- `rotmat_to_quat_wxyz` (src/fk_solver.cpp) on the matrix of a unit quaternion, in exact
-- arithmetic.
use franka_kistar_r_exp_gwb.Double.{Double}
use franka_kistar_r_exp_gwb.Kinematics.Quaternion.{Quaternion}
pub mod Sums
pub mod Signs
