-- ===== src/Arm/Thread/Session.antt =====
-- `franka_control_thread_R` (src/franka_right_arm.cpp) over all its connections: the outer loop,
-- which connects again after every exception. The memory is attached.
use franka_kistar_r_exp_gwb.Common.{Option, none, some, List, [], ◌∷◌}
use franka_kistar_r_exp_gwb.Double.{Double}
use franka_kistar_r_exp_gwb.Arm.Robot.{RobotState}
use franka_kistar_r_exp_gwb.Arm.Execute.{World, mark_trajectory_done}
use franka_kistar_r_exp_gwb.Arm.Thread.{
  Round, Thread, Step, next, failed, crashed, iterate, connect,
}
pub mod Defined

-- A turn of the outer loop: what other processes have written since the last one, what the first
-- `readOnce` gives, where `none` is an exception up to there, and the rounds, each with what other
-- processes write before it.
pub record Session (F : Type 0) : Type 0 where
  pub meanwhile : World F → World F
  pub connected : Option (RobotState F)
  pub rounds : List ((World F → World F) × Round F)

module _ {F : Type 0} ⦃d : Double F⦄ where
  -- The inner loop, for as many rounds as are given.
  unfoldable pub run_shared : F → List ((World F → World F) × Round F) → Thread F → Step F
  run_shared config_speed [] t = next t
  run_shared config_speed ((write, r) ∷ rs) t =
      elim (iterate config_speed r (record t { world = write t.world })) [
        | next u ↦ run_shared config_speed rs u
        | failed w ↦ failed w
        | crashed ↦ crashed
      ]

  -- The outer loop, for as many turns as are given: the thread is in its inner loop, or waits to
  -- connect again.
  unfoldable pub control_thread : F → List (Session F) → World F → Step F
  control_thread config_speed [] w = failed w
  control_thread config_speed (s ∷ ss) w = elim s.connected [
    | none ↦ control_thread config_speed ss (mark_trajectory_done (s.meanwhile w))
    | some st ↦ elim (run_shared config_speed s.rounds (connect st (s.meanwhile w))) [
      | next t ↦ next t
      | failed v ↦ control_thread config_speed ss v
      | crashed ↦ crashed
    ]
  ]
