-- ===== src/Bridge.antt =====
-- ros2/kistar_hand_bridge/src/kistar_hand_bridge_node.cpp: the node that writes ROS2 targets into
-- the shared memory and publishes what the shared memory holds. A message is a record of lists.
pub mod Targets
pub mod Trajectory
pub mod Layout
pub mod Publish
pub mod Node
