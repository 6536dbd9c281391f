-- ===== src/Tests/Motions.antt =====
-- Tests of the theorems on the course of a trajectory in src/franka_right_arm.cpp.
use franka_kistar_r_exp_gwb.Common.{
  ◌≡◌, ◌≢◌, ◌↔◌, refl, ℕ, ◌+◌, ◌<◌, false, some, none, List, [], ◌∷◌, Array, arith,
}
use franka_kistar_r_exp_gwb.Common.Int.{pos}
use franka_kistar_r_exp_gwb.Double.{◌≼◌, ◌≺◌, nought}
use franka_kistar_r_exp_gwb.Double.Fixed.{Fixed, fin, fixed_double, Fixed-IsIeee}
use franka_kistar_r_exp_gwb.Shm.{arm_dof, arm_traj_pending}
use franka_kistar_r_exp_gwb.Arm.Motion.{command}
use franka_kistar_r_exp_gwb.Arm.Motion.Between.{IsBetween}
use franka_kistar_r_exp_gwb.Arm.Motion.Command.{command_along, command-none_iff}
use franka_kistar_r_exp_gwb.Arm.Execute.{Tick, tick, other, Copying, World, thrown, run_control}
use franka_kistar_r_exp_gwb.Arm.Execute.Sent.{start, run_control_finishes}
use franka_kistar_r_exp_gwb.Tests.Fixtures.{
  home, away, demo, demo-IsSound, demo_buf, world_of, standing,
}

-- 0.25 s
abbrev quarter : Fixed
quarter = fin (pos 250_000_000)

command_along_example :
    let p = demo 0 2 in
    (i : ℕ) × (q : Array Fixed) × (i + 1 < p.len)
    × (p.times i ≼ quarter)
    × (quarter ≺ p.times (i + 1))
    × (command p quarter ≡ some (q, false))
    × ((j : ℕ) → j < arm_dof → IsBetween (p.waypoints i j) (p.waypoints (i + 1) j) (q j))
command_along_example =
    command_along Fixed-IsIeee (demo 0 2) (demo-IsSound 0 2 (omega arith) (omega arith)) quarter
      refl refl refl

command-none_iff_example :
    (command (demo 2 1) quarter ≡ none) ↔ (((demo 2 1).len ≡ 1) × (quarter ≺ (demo 2 1).times 0))
command-none_iff_example =
    command-none_iff Fixed-IsIeee (demo 2 1) (demo-IsSound 2 1 (omega arith) (omega arith)) quarter
      refl

-- Four calls, the last of them 1.2 s behind the start; another process writes in between.
abbrev pub course : List (Tick Fixed)
course =
    tick (standing home) nought
    ∷ tick (standing home) quarter
    ∷ other (λ s. s) (λ t. record t { process_num = 2 })
    ∷ tick (standing home) (fin (pos 500_000_000))
    ∷ tick (standing away) (fin (pos 450_000_000))
    ∷ []

abbrev pub world : World Fixed
world = world_of home (demo_buf arm_traj_pending)

run_control_finishes_example : (run_control (demo 0 2) course (start world)).0 ≢ thrown
run_control_finishes_example =
    run_control_finishes Fixed-IsIeee (demo 0 2) (demo-IsSound 0 2 (omega arith) (omega arith))
      course (start world) refl

-- Somebody attaches to the segment during the copy.
abbrev pub hurried : Copying Fixed
hurried = record {
  during = λ k s. record s { process_num = k };
  past = λ s. record s { process_num = 3 };
}
