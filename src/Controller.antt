-- ===== src/Controller.antt =====
-- test/Franka_KISTAR_R_Exp_V1.cpp: `main`, which starts the threads and then runs the bus.
use franka_kistar_r_exp_gwb.Common.{ℕ, ◌+◌, ◌*◌, ◌≤◌, ◌≡◌, some, List, [], ◌∷◌, arith, length}
use franka_kistar_r_exp_gwb.Common.Int.{ℤ, pos, ◌+ℤ◌}
use franka_kistar_r_exp_gwb.Double.{Double}
use franka_kistar_r_exp_gwb.Shm.{ShmMsgs}
use franka_kistar_r_exp_gwb.Kinematics.Transform.{Maths}
use franka_kistar_r_exp_gwb.Logger.File.{codes}
use franka_kistar_r_exp_gwb.Arm.Attach.{FrankaRightArmConfig}
use franka_kistar_r_exp_gwb.Ethercat.Clock.{Timespec}
use franka_kistar_r_exp_gwb.Ethercat.Pdo.{Buffers}
use franka_kistar_r_exp_gwb.Ethercat.Cycle.{Setup, RoundAnswers, start, rounds}
use franka_kistar_r_exp_gwb.Ethercat.Cycle.Forward.{IsForward, round-IsForward, rounds-IsBounded}
use franka_kistar_r_exp_gwb.Ethercat.Start.{RunAnswers, Run, ethercat_run}

-- The threads with their arguments, in the order of their creation.
pub data Started (F : Type 0) : Type 0 where
  ecatthread : ℕ → Started F
  ecatcheck : Started F
  franka_control_thread : FrankaRightArmConfig F → Started F
  shm_print_thread : ℤ → Started F

abbrev pub ctime : ℕ
ctime = 1000

-- cycletime = *static_cast<int *>(ptr) * 1000
abbrev pub cycletime : ℕ
cycletime = ctime * 1000

-- The interface is the first argument of the program, if there is one.
abbrev interface : List (List ℕ) → List ℕ
interface [] = codes "enp1s0f0"
interface (arg ∷ args) = arg

module _ {F : Type 0} ⦃d : Double F⦄ where
  unfoldable pub config : FrankaRightArmConfig F
  config = record {
    robot_ip = codes "172.16.0.1";
    speed_factor = d.of_nano (pos 100_000_000);
    control_period_us = pos 1000;
    print_interval_us = pos 100_000;
  }

  unfoldable pub main : List (List ℕ) → RunAnswers → List (Started F) × Run
  unfolding config
  main args a = (
    ecatthread ctime ∷ ecatcheck ∷ franka_control_thread config ∷ shm_print_thread (pos 100) ∷ [],
    ethercat_run (some (interface args)) a,
  )

module _ {F : Type 0} ⦃d : Double F⦄ ⦃m : Maths F⦄ where
  -- The cyclic thread, as the controller starts it, with a cycle of a millisecond, wakes up later
  -- each time for ten million rounds, whatever the reference clock says: in the rounds before
  -- `ethercat_run` sets `dorun` to 1, and in those behind it, in which `ec_sync` corrects the time.
  pub start-IsForward :
      (u : Setup) (now : Timespec) (buffers : Buffers) (shm : ShmMsgs F) (gl_delta : ℤ)
      (waiting running : List RoundAnswers)
      → u.cycletime ≡ cycletime
      → length waiting + length running ≤ 10_000_000
      → let t = start now buffers shm (pos 0) gl_delta in
        IsForward u waiting t × IsForward u running (record (rounds u waiting t) { dorun = 1 })
  unfolding ◌+ℤ◌
  start-IsForward u now buffers shm gl_delta waiting running c h =
      let t = start now buffers shm (pos 0) gl_delta in
      (
        round-IsForward u waiting t (omega arith) (ground arith, ground arith),
        round-IsForward u running (record (rounds u waiting t) { dorun = 1 }) (omega arith)
            (rounds-IsBounded u waiting (length running) t (omega arith)
              (ground arith, ground arith)),
      )
