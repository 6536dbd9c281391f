-- ===== src/Shm/Attach.antt =====
-- src/shm.cpp: `init_shm`, `deleteSharedMemory`, `init_arm_traj_shm` and
-- `deleteArmTrajSharedMemory`. The memory that the kernel hands out is an argument, and so is
-- whether `shmget`, `shmat` and `shmctl` succeed; `none` is `std::exit`.
use franka_kistar_r_exp_gwb.Common.{
  ℕ, ◌+◌, ◌-◌, ◌%◌, ◌^◌, Bool, false, Option, none, some, update, for_range, ◌==◌, if◌then◌else◌,
}
use franka_kistar_r_exp_gwb.Common.Int.{pos}
use franka_kistar_r_exp_gwb.Double.{Double}
use franka_kistar_r_exp_gwb.Shm.Defs.{
  ShmMsgs, ArmTrajShm, arm_num, arm_traj_idle, zero_msgs, zero_traj,
}

-- `++` and `--` on a `std::atomic<int>` wrap.
abbrev pub atomic_inc : ℕ → ℕ
atomic_inc n = (n + 1) % 2 ^ 32

abbrev pub atomic_dec : ℕ → ℕ
atomic_dec n = (n + 2 ^ 32 - 1) % 2 ^ 32

module _ {F : Type 0} ⦃d : Double F⦄ where
  -- The branch `process_num == 0` of `init_shm`.
  unfoldable pub clean_start : ShmMsgs F → ShmMsgs F
  unfolding for_range
  clean_start shm =
      for_range arm_num 0
        (λ arm s. record s {
          arm_speed_factor = update s.arm_speed_factor arm (d.of_nano (pos 100_000_000));
        })
        zero_msgs

  unfoldable pub init_shm : Bool → Bool → ShmMsgs F → Option (ShmMsgs F)
  unfolding clean_start
  init_shm got attached shm =
      if got
      then if attached
        then (let s = if shm.process_num == 0 then clean_start shm else shm in
            some (record s { process_num = atomic_inc s.process_num }))
        else none
      else none

  -- The new contents, and whether the segment was removed. `none` is a null pointer.
  unfoldable pub delete_shared_memory : Bool → Option (ShmMsgs F) → Option (ShmMsgs F) × Bool
  delete_shared_memory removable none = (none, false)
  delete_shared_memory removable (some shm) =
      let s = record shm { process_num = atomic_dec shm.process_num } in
      (some s, if s.process_num == 0 then removable else false)

  unfoldable pub clean_start_traj : ArmTrajShm F → ArmTrajShm F
  unfolding for_range
  clean_start_traj shm =
      for_range arm_num 0
        (λ arm s. record s {
          arm_traj =
              update s.arm_traj arm
                (record (s.arm_traj arm) { state = arm_traj_idle; len = pos 0 });
        })
        zero_traj

  unfoldable pub init_arm_traj_shm : Bool → Bool → ArmTrajShm F → Option (ArmTrajShm F)
  unfolding clean_start_traj
  init_arm_traj_shm got attached shm =
      if got
      then if attached
        then (let s = if shm.process_num == 0 then clean_start_traj shm else shm in
            some (record s { process_num = atomic_inc s.process_num }))
        else none
      else none

  unfoldable pub delete_arm_traj_shared_memory :
      Bool → Option (ArmTrajShm F) → Option (ArmTrajShm F) × Bool
  delete_arm_traj_shared_memory removable none = (none, false)
  delete_arm_traj_shared_memory removable (some shm) =
      let s = record shm { process_num = atomic_dec shm.process_num } in
      (some s, if s.process_num == 0 then removable else false)
