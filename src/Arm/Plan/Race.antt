-- ===== src/Arm/Plan/Race.antt =====
-- The copying loop of `executeTrajFromShm` (src/franka_right_arm.cpp) over memory that another
-- process writes meanwhile: the lock that it takes is a `std::mutex` of its own process. The code
-- reads every cell once, first `len` and then for each entry its seven joints and its time.
use franka_kistar_r_exp_gwb.Common.{ℕ, ◌+◌, ◌*◌, ◌<◌, ◌≡◌, Option, some}
use franka_kistar_r_exp_gwb.Common.Int.{pos}
use franka_kistar_r_exp_gwb.Double.{Double, IsIeee}
use franka_kistar_r_exp_gwb.Shm.{ArmTrajBuf, arm_dof}
use franka_kistar_r_exp_gwb.Arm.Plan.{Plan, load, IsSound}
use franka_kistar_r_exp_gwb.Arm.Plan.Check.{load_sound}

-- The number of the read of q[i][j], and of t[i].
abbrev pub joint_read : ℕ → ℕ → ℕ
joint_read i j = 8 * i + j + 1

abbrev pub time_read : ℕ → ℕ
time_read i = 8 * i + 8

module _ {F : Type 0} ⦃d : Double F⦄ where
  -- What the reads see, where `mem k` is the buffer at the read `k`.
  abbrev pub seen : (ℕ → ArmTrajBuf F) → ArmTrajBuf F
  seen mem = record {
    q = λ i j. (mem (joint_read i j)).q i j;
    t = λ i. (mem (time_read i)).t i;
    len = (mem 0).len;
    state = (mem 0).state;
  }

  unfoldable pub load_racing : (ℕ → ArmTrajBuf F) → Option (Plan F)
  load_racing mem = load (seen mem)

  -- Whatever other processes write during the copy, an accepted trajectory has 1 to 1000 waypoints,
  -- each within the joint limits, at finite times that start at 0 or later and rise strictly, and
  -- each of its values was in the buffer at the moment when it was read.
  pub load_racing_sound :
      (laws : IsIeee F) (mem : ℕ → ArmTrajBuf F) (p : Plan F)
      → load_racing mem ≡ some p
      → IsSound p
        × ((mem 0).len ≡ pos p.len)
        × ((i j : ℕ) → i < p.len → j < arm_dof → p.waypoints i j ≡ (mem (joint_read i j)).q i j)
        × ((i : ℕ) → i < p.len → p.times i ≡ (mem (time_read i)).t i)
  unfolding load_racing
  load_racing_sound laws mem p h =
      let (sound, same) = load_sound laws (seen mem) p h in
      (sound, same.count, same.joints, same.stamps)
