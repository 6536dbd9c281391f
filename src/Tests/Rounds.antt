-- ===== src/Tests/Rounds.antt =====
-- Tests of the rounds of the cyclic thread, and of its start and end.
use franka_kistar_r_exp_gwb.Common.{
  ℕ, ◌+◌, ◌*◌, ◌≤◌, ◌<◌, ◌≡◌, ◌⊎◌, refl, true, none, some, [], ◌∷◌, length, arith,
}
use franka_kistar_r_exp_gwb.Common.Int.{ℤ, pos}
use franka_kistar_r_exp_gwb.Shm.{zero_msgs}
use franka_kistar_r_exp_gwb.Ethercat.Check.{ec_state_safe_op}
use franka_kistar_r_exp_gwb.Ethercat.Pdo.{Buffers}
use franka_kistar_r_exp_gwb.Ethercat.Cycle.{Setup, RoundAnswers, Thread, start, rounds}
use franka_kistar_r_exp_gwb.Ethercat.Cycle.Poses.{IsCurrent, OnlyMeasures, rounds-IsCurrent}
use franka_kistar_r_exp_gwb.Ethercat.Cycle.Forward.{IsForward}
use franka_kistar_r_exp_gwb.Ethercat.Start.{RunAnswers, active_hands, ethercat_run}
use franka_kistar_r_exp_gwb.Ethercat.Start.Trace.{
  count, is_close, is_leave, is_dorun, last_request, ethercat_run-finish, active_hands_fit,
}
use franka_kistar_r_exp_gwb.Controller.{start-IsForward}
use franka_kistar_r_exp_gwb.Tests.Exact.{whole, quarter_turns}

abbrev blank : Buffers
blank = record { tx = λ _ _. 0; rx = λ _ _. 0; outputs = λ _. 0 }

abbrev pub idle : Thread ℤ
idle =
    start (record { tv_sec = pos 43_200; tv_nsec = pos 999_900_000 }) blank zero_msgs (pos 0)
      (pos 0)

abbrev pub setup : Setup
setup = record { active_hand_num = 1; digout = none; hasdc = true; cycletime = 1_000_000 }

abbrev pub answered : RoundAnswers
answered = record { wkc = pos 3; inputs = λ i. i; dc_time = pos 123_456_789 }

rounds-IsCurrent_example :
    let t = record idle { dorun = 1 } in
    let r = rounds setup (answered ∷ answered ∷ []) t in
    ((hand : ℕ) → hand < 1 → IsCurrent r.shm hand)
    × OnlyMeasures t.shm r.shm
    × (r.dorun ≡ 1 + 1 + length (answered ∷ []))
rounds-IsCurrent_example =
    rounds-IsCurrent setup answered (answered ∷ []) (record idle { dorun = 1 }) (omega arith)

start-IsForward_example :
    IsForward setup (answered ∷ []) idle
    × IsForward setup
        (answered ∷ answered ∷ [])
        (record (rounds setup (answered ∷ []) idle) { dorun = 1 })
start-IsForward_example =
    start-IsForward setup (record { tv_sec = pos 43_200; tv_nsec = pos 999_900_000 }) blank
      zero_msgs (pos 0) (answered ∷ []) (answered ∷ answered ∷ []) refl (omega arith)

abbrev bus : RunAnswers
bus = record {
  initialised = true;
  configured = pos 1;
  slaves = record { eep_id = 1; outputs = some 0 } ∷ [];
  obytes = 64;
  ibytes = 256;
  outputs_wkc = 1;
  inputs_wkc = 1;
  reached = 8;
}

ethercat_run-finish_example :
    let actions = (ethercat_run none bus).actions in
    (count is_close actions ≡ 1)
    × (count is_leave actions ≡ 1)
    × (count is_dorun actions ≡ 1)
    × (last_request none actions ≡ some ec_state_safe_op)
ethercat_run-finish_example = ethercat_run-finish none bus

active_hands_fit_example :
    let n = active_hands 2 130 256 in
    (1 ≤ n)
    × (n ≤ 2)
    × (((n * 64 ≤ 130) × (n * 256 ≤ 256)) ⊎ ((n ≡ 1) × ((130 < 64) ⊎ (256 < 256))))
active_hands_fit_example = active_hands_fit 2 130 256 (omega arith)
