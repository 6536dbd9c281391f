-- ===== src/Kinematics.antt =====
-- The fingertips' poses: src/fk_solver.cpp.
pub mod Transform
pub mod Quaternion
pub mod Hand
