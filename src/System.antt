-- ===== src/System.antt =====
-- The parts of the program together: from a topic of ros2/kistar_hand_bridge to the arm's set
-- points (src/franka_right_arm.cpp) and to the hand's process data (src/Ethercat_setting.cpp), and
-- back.
pub mod Copy
pub mod Route
pub mod Hand
pub mod Protocol
