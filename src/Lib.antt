-- ===== src/Lib.antt =====
-- A verification library for the controller of an FR3 arm and a KISTAR hand.
--
-- The controller (src/*.cpp, test/Franka_KISTAR_R_Exp_V1.cpp) runs an EtherCAT thread for the hand,
-- a thread for the arm and one that prints in one process. The ROS 2 bridge
-- (ros2/kistar_hand_bridge) is another process. They meet in two System V segments: the messages
-- (SHMmsgs: measured values, targets, speed factor) and the trajectory buffer (ArmTrajShm), whose
-- state field says who may use it.
--
--   Shm (inc/shm.h, src/shm.cpp): the layout in Shm/Defs; `init_shm`, `delete_shared_memory` and
--     their counterparts for the trajectory segment in Shm/Attach; Shm/Count runs sequences of
--     processes that attach, store and leave; Shm/Race interleaves the steps of two that attach at
--     once.
--   Arm (src/franka_right_arm.cpp): Arm/Attach has ensureShmAttached over all retries and the
--     configuration; Arm/Robot writes a robot state; Arm/Limits has sanitizeSpeedFactor,
--     isTargetChanged and validateWaypoint; executeTrajFromShm is Arm/Plan (the copy and its
--     checks, `load`; Arm/Plan/Race has the copy while other processes write, `load_racing`),
--     Arm/Motion (the set point of the callback, `command`) and Arm/Execute (the control loop and
--     the end, `execute_traj_from_shm`); Arm/Thread has the rounds of franka_control_thread_R
--     (`iterate`, `run_rounds`) and the connection (`connect`); Arm/Thread/Session has the outer
--     loop, over all connections (`control_thread`).
--   Bridge (ros2/kistar_hand_bridge/src/kistar_hand_bridge_node.cpp): the handlers of the target
--     topics in Bridge/Targets, on_franka_trajectory in Bridge/Trajectory, and as the sequence of
--     its stores in Bridge/Trajectory/Stores; the messages' layouts in Bridge/Layout,
--     publish_from_shared_memory in Bridge/Publish; constructor, subscriptions, destructor and main
--     in Bridge/Node, where a run of the node is any change of the memory.
--   Ethercat (src/Ethercat_setting.cpp): the clock of ecatthread, that is add_timespec, ec_sync and
--     the wake-up times, in Ethercat/Clock; the process data of a hand, that is the two unions and
--     the body of the loop over the hands, in Ethercat/Pdo; the whole round of ecatthread in
--     Ethercat/Cycle; a turn of ecatcheck in Ethercat/Check; ethercat_run, as the list of its
--     actions, in Ethercat/Start, and the order of the two threads at the start in
--     Ethercat/Start/Order; the two printing functions that nothing calls in Ethercat/Report.
--   Kinematics (src/fk_solver.cpp): the transforms in Kinematics/Transform, the quaternion in
--     Kinematics/Quaternion, the fingers' chains in Kinematics/Hand. The functions of cmath are a
--     parameter. Kinematics/Transform/Exact has the laws of exact arithmetic (`IsExact`), a
--     commutative ring with sine and cosine on the unit circle, in which the geometric theorems are
--     stated: they say that the formulas are right, and leave the rounding of doubles aside. What
--     the quaternion needs besides, quotients and square roots, is `IsField` in
--     Kinematics/Quaternion/Inverse/Signs.
--   Logger (src/hdf5_logger.cpp): the datasets in Logger/Columns, the two helpers that call HDF5 in
--     Logger/Calls, the class Impl in Logger/Impl, the file name in Logger/File, the class that
--     others see in Logger/Handle. The calls of HDF5 are a list, with the library's answers as
--     arguments.
--   Printer (src/shm_print.cpp, and data_print_thread of src/franka_right_arm.cpp): what they
--     write.
--   Tools (scripts/reset_arm_traj.cpp, scripts/inspect_arm_traj.cpp): the reset of the trajectory
--     buffer and the report of it.
--   Controller (test/Franka_KISTAR_R_Exp_V1.cpp): the threads that main starts, with their
--     arguments.
--   System, where the parts meet: System/Copy has the arm's copy of the buffer while the bridge
--     writes it, and System/Copy/Torn a copy that it overtakes; System/Route follows a trajectory
--     from the topic to the robot, System/Hand the targets from the topics to the hand and its
--     measured values back; System/Protocol is a step relation on the trajectory buffer, whose
--     steps are the handler of the bridge, the rounds of the arm's thread, its failures, the pause
--     behind them and its reconnections, and the reset tool.
--   Common has the arrays, loops, tests and signed integers; Double the interface of floating-point
--     numbers, the laws of IEEE arithmetic that the code relies on (`IsIeee`), and a fixed-point
--     type that meets them, on which the definitions run. Tests applies the theorems to concrete
--     data; Tests/Exact has integers with quarter turns as exact numbers, and Tests/Residues the
--     integers modulo 3, with quotients and roots.
--
-- A C array is a function of its index, and an index that C++ does not check is used as it is; an
-- index past the end of a std::vector is `none`, undefined behaviour. A loop over a range is
-- structural recursion on the number of its rounds, so that no fuel is needed; the digits of a
-- number in the logger's file name have as many turns as the number and the width together, which
-- is enough for every number. libfranka's control loop is a list of what happens while it runs:
-- calls of the callback, and writes by other processes between two calls. Where processes race,
-- each makes its accesses in program order and memory is sequentially consistent; System/Protocol
-- takes whole operations one after the other. What the kernel, libfranka, SOEM, HDF5 and ROS
-- deliver are arguments. An atomic int is its bit pattern below 2 ^ 32. Times of the EtherCAT clock
-- are integers that stay far below 2 ^ 63.
--
-- Not modelled: the SOEM library (soem_lib), a copy of another project; the Python tools (another
-- language); the configuration calls to the robot; the logging that is commented out in ecatthread;
-- diagnostics on the terminal; interleavings of the threads of the controller but for the start of
-- ecatthread.
pub mod Common
pub mod Double
pub mod Shm
pub mod Arm
pub mod Bridge
pub mod Ethercat
pub mod Tools
pub mod Logger
pub mod Kinematics
pub mod Printer
pub mod Controller
pub mod System
pub mod Tests
