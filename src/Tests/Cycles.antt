-- ===== src/Tests/Cycles.antt =====
-- Tests of the EtherCAT thread.
use franka_kistar_r_exp_gwb.Common.{
  true, false, ℕ, Array, ◌≡◌, ◌↔◌, refl, ◌+◌, ◌%◌, List, [], ◌∷◌, arith,
}
use franka_kistar_r_exp_gwb.Common.Int.{ℤ, pos, negsuc, ◌+ℤ◌, ◌≤ℤ◌, ◌<ℤ◌}
use franka_kistar_r_exp_gwb.Double.Fixed.{Fixed, fixed_double}
use franka_kistar_r_exp_gwb.Shm.{ShmMsgs, zero_msgs}
use franka_kistar_r_exp_gwb.Ethercat.Check.{Answers, Slave, ec_state_operational, check_slaves}
use franka_kistar_r_exp_gwb.Ethercat.Check.Pass.{
  AllOperational, LostIsSilent, check_slaves_iff, check_slaves-LostIsSilent,
}
use franka_kistar_r_exp_gwb.Ethercat.Check.Recover.{next_round, next_round-resumes}
use franka_kistar_r_exp_gwb.Ethercat.Pdo.{Buffers}
use franka_kistar_r_exp_gwb.Ethercat.Clock.{
  Timespec, SyncState, add_timespec, first_wake_up, wake_up,
}
use franka_kistar_r_exp_gwb.Ethercat.Clock.Advance.{nanoseconds, IsNormal, total, wake_up_lem}

abbrev noon : Timespec
noon = record { tv_sec = pos 43_200; tv_nsec = pos 999_900_000 }

-- The fault shows: the nanoseconds are a full second.
add_timespec_full_second : (add_timespec noon (pos 100_000)).tv_nsec ≡ pos 1_000_000_000
unfolding add_timespec
add_timespec_full_second = refl

abbrev steps : List ℤ
steps = pos 500_000 ∷ pos 499_970 ∷ pos 500_012 ∷ []

wake_up_lem_example :
    let start = first_wake_up noon in
    (start.tv_sec ≡ pos 43_200)
    × (pos 999_900_000 <ℤ start.tv_nsec)
    × (start.tv_nsec ≤ℤ pos (999_900_000 + 1_000_000))
    × IsNormal (wake_up steps start)
    × (nanoseconds (wake_up steps start) ≡ nanoseconds start +ℤ total steps)
wake_up_lem_example =
    wake_up_lem (pos 43_200) 999_900_000 steps (omega arith)
      (omega arith, (omega arith, (omega arith, tt)))

abbrev late : SyncState
late = record { integral = negsuc 7; toff = pos 0; gl_delta = pos 0 }

-- Byte 300 of the inputs is 44, as every byte is its place modulo 256.
abbrev ramp : Array ℕ
ramp k = k % 256

abbrev blank : Buffers
blank = record { tx = λ _ _. 0; rx = λ _ _. 0; outputs = λ _. 0 }

abbrev grasp : ShmMsgs Fixed
grasp = record zero_msgs { servo_on = λ _. 1; hand_mode = λ _. 3; j_tar = λ _ _. negsuc 1999 }

abbrev silent : Answers
silent = record {
  reconfigured = false;
  after_reconfig = 0;
  checked = 0;
  recovered = false;
  after_recover = 0;
}

abbrev line : List (Answers × Slave)
line =
    (silent, record { group = 0; state = 8; islost = false })
    ∷ (silent, record { group = 0; state = 0; islost = false })
    ∷ []

check_slaves_iff_example : ((check_slaves 0 line).1 ≡ false) ↔ AllOperational 0 line
check_slaves_iff_example = check_slaves_iff 0 line

check_slaves-LostIsSilent_example : LostIsSilent (check_slaves 0 line).0
check_slaves-LostIsSilent_example = check_slaves-LostIsSilent 0 line

next_round-resumes_example :
    let s : Slave = record { group = 0; state = 20; islost = true } in
    let t = next_round 0 silent (next_round 0 silent s) in
    (t.state ≡ ec_state_operational) × (t.islost ≡ false)
next_round-resumes_example = next_round-resumes 0 silent silent true
