-- ===== src/Tests/Threads.antt =====
-- Tests of the theorems on the arm's thread.
use franka_kistar_r_exp_gwb.Common.{
  ◌⊎◌, ◌≡◌, ◌≢◌, refl, true, false, some, none, [], ◌∷◌, arith, copy,
}
use franka_kistar_r_exp_gwb.Common.Int.{pos}
use franka_kistar_r_exp_gwb.Double.Fixed.{Fixed, fin, fixed_double, Fixed-IsIeee}
use franka_kistar_r_exp_gwb.Shm.{
  arm_dof, arm_traj_idle, arm_traj_pending, arm_traj_executing, arm_traj_done,
}
use franka_kistar_r_exp_gwb.Arm.Limits.{sanitize_speed_factor}
use franka_kistar_r_exp_gwb.Arm.Robot.{right_arm_index}
use franka_kistar_r_exp_gwb.Arm.Execute.{World, traj_state, zeros, undisturbed}
use franka_kistar_r_exp_gwb.Arm.Thread.{
  Round, PointToPoint, Thread, next, crashed, observe, read_speed, iterate, run_rounds, connect,
}
use franka_kistar_r_exp_gwb.Arm.Thread.Quiet.{connect_quiet}
use franka_kistar_r_exp_gwb.Arm.Thread.Recovery.{Fails, iterate-Fails, run_rounds_refused_moves}
use franka_kistar_r_exp_gwb.Arm.Thread.Session.{Session, control_thread}
use franka_kistar_r_exp_gwb.Arm.Thread.Session.Defined.{
  RoundKeeps, WriteKeeps, RoundsKeep, control_thread_defined,
}
use franka_kistar_r_exp_gwb.Tests.Fixtures.{
  home, away, demo_buf, bad_buf, bad_buf-load, world_of, standing,
}

-- 0.1
abbrev pub config : Fixed
config = fin (pos 100_000_000)

abbrev calm : Round Fixed
calm = record {
  before = some (standing home);
  copying = undisturbed;
  course = [];
  moves = true;
  after = some (standing away);
}

abbrev pub resting : Thread Fixed
resting = record {
  world = world_of home (demo_buf arm_traj_idle);
  last_target = home;
  motions = [];
}

connect_quiet_example :
    let w = world_of away (demo_buf arm_traj_done) in
    iterate config calm (connect (standing home) w)
    ≡ next (record (connect (standing home) w) {
      world = observe (standing home) (connect (standing home) w).world;
    })
connect_quiet_example =
    connect_quiet Fixed-IsIeee config calm (standing home) (standing home)
      (world_of away (demo_buf arm_traj_done)) refl (λ e. omega arith) (λ j l. refl)

abbrev called : Thread Fixed
called = record resting { world = world_of away (demo_buf arm_traj_idle) }

-- libfranka throws at once.
abbrev pub lost : Round Fixed
lost = record { before = none; copying = undisturbed; course = []; moves = false; after = none }

-- The bridge publishes in the pause.
iterate-Fails_example :
    let v = world_of away (demo_buf arm_traj_pending) in
    let u = (connect (standing home) v).world in
    Fails (λ w. traj_state w ≡ arm_traj_done) (iterate config lost resting)
    × ((((traj_state v ≡ arm_traj_pending) ⊎ (traj_state v ≡ arm_traj_executing))
          × (u.traj ≡ v.traj))
        ⊎ ((traj_state v ≢ arm_traj_pending)
            × (traj_state v ≢ arm_traj_executing)
            × (traj_state u ≡ arm_traj_idle)
            × ((u.traj.arm_traj right_arm_index).len ≡ pos 0)))
iterate-Fails_example =
    iterate-Fails config lost resting (standing home) (world_of away (demo_buf arm_traj_pending))

abbrev misled : Thread Fixed
misled = record { world = world_of away bad_buf; last_target = home; motions = [] }

run_rounds_refused_moves_example :
    (u : Thread Fixed) × (motion : PointToPoint Fixed) × (run_rounds config
        (calm ∷ calm ∷ [])
        misled
      ≡ next u)
    × (u.motions ≡ motion ∷ [])
    × (motion.target ≡ copy arm_dof away zeros)
    × (motion.speed ≡ sanitize_speed_factor (read_speed misled.world) config)
run_rounds_refused_moves_example =
    run_rounds_refused_moves Fixed-IsIeee config calm calm misled (standing home) (standing away)
      (standing home) (standing away) refl refl refl refl refl refl refl bad_buf-load 0
      (omega arith) refl

abbrev keep : World Fixed → World Fixed
keep w = w

-- The bridge publishes two points.
abbrev publish : World Fixed → World Fixed
publish w = record w { traj = record w.traj { arm_traj = λ _. demo_buf arm_traj_pending } }

abbrev unreachable : Session Fixed
unreachable = record { meanwhile = keep; connected = none; rounds = [] }

-- A round at rest, a trajectory that libfranka breaks off, and no connection any more.
abbrev eventful : Session Fixed
eventful = record {
  meanwhile = keep;
  connected = some (standing home);
  rounds = (keep, calm) ∷ (publish, calm) ∷ (keep, lost) ∷ [];
}

publish-WriteKeeps : WriteKeeps publish
publish-WriteKeeps w h e = ground arith

calm-RoundKeeps : RoundKeeps calm
calm-RoundKeeps = (λ k s h. h, λ s h. h, tt)

lost-RoundKeeps : RoundKeeps lost
lost-RoundKeeps = (λ k s h. h, λ s h. h, tt)

eventful-RoundsKeep : RoundsKeep eventful.rounds
eventful-RoundsKeep = (
  λ w h. h,
  calm-RoundKeeps,
  (publish-WriteKeeps, calm-RoundKeeps, (λ w h. h, lost-RoundKeeps, tt)),
)

control_thread_defined_example :
    control_thread config (unreachable ∷ eventful ∷ eventful ∷ []) resting.world ≢ crashed
control_thread_defined_example =
    control_thread_defined Fixed-IsIeee config (unreachable ∷ eventful ∷ eventful ∷ [])
      resting.world
      (λ w h. h, tt, (λ w h. h, eventful-RoundsKeep, (λ w h. h, eventful-RoundsKeep, tt)))
      (λ e. ground arith)
