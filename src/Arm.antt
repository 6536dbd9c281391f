-- ===== src/Arm.antt =====
-- src/franka_right_arm.cpp: the thread that moves the FR3 arm.
pub mod Attach
pub mod Robot
pub mod Limits
pub mod Plan
pub mod Motion
pub mod Execute
pub mod Thread
