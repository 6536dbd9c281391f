-- ===== src/Tests/Turns.antt =====
-- Tests of the theorems on processes that take turns.
use franka_kistar_r_exp_gwb.Common.{refl, true, none, inl, [], ◌∷◌, arith}
use franka_kistar_r_exp_gwb.Common.Int.{ℤ}
use franka_kistar_r_exp_gwb.Double.Fixed.{Fixed, fixed_double}
use franka_kistar_r_exp_gwb.Arm.Thread.{iterate}
use franka_kistar_r_exp_gwb.System.Protocol.{
  Sys, publishes, fails, connects, Reach, here, later, IsOrderly, Reach-IsOrderly,
}
use franka_kistar_r_exp_gwb.Ethercat.Start.{pause, wait_for_signal}
use franka_kistar_r_exp_gwb.Ethercat.Start.Order.{
  Boot, main_acts, thread_acts, move_all, IsWaiting, start_missed,
}
use franka_kistar_r_exp_gwb.Tests.Exact.{whole, quarter_turns}
use franka_kistar_r_exp_gwb.Tests.Fixtures.{home, standing}
use franka_kistar_r_exp_gwb.Tests.Topics.{message}
use franka_kistar_r_exp_gwb.Tests.Threads.{config, lost, resting}
use franka_kistar_r_exp_gwb.Tests.Rounds.{idle, setup, answered}

abbrev first : Sys Fixed
first = record { thread = resting; connected = true; last = none }

-- The connection to the robot is lost, a message is published in the pause and kept by the next
-- connection, which is lost, too.
busy_day : (s : Sys Fixed) × Reach first s
unfolding iterate
busy_day = (
  _,
  later
      (later
        (later (later here (fails first config lost _ refl refl))
          (publishes _ message (omega arith) (omega arith)))
        (connects _ (standing home) refl))
      (fails _ config lost _ refl refl),
)

Reach-IsOrderly_example : IsOrderly busy_day.0
Reach-IsOrderly_example = Reach-IsOrderly busy_day.1 (inl refl)

-- `ethercat_run` is at the request for the operational state, the thread is not yet there.
abbrev hasty : Boot ℤ
hasty = record { todo = pause ∷ wait_for_signal ∷ []; dorun = 1; thread = none }

start_missed_example :
    IsWaiting setup idle
      (move_all setup idle
        (thread_acts answered ∷ main_acts ∷ thread_acts answered ∷ [])
        hasty).thread
start_missed_example =
    start_missed setup idle refl hasty
      (thread_acts answered ∷ main_acts ∷ thread_acts answered ∷ []) refl refl
