-- ===== src/Shm/Race.antt =====
-- `init_shm` of src/shm.cpp as three steps on the shared memory, since only the increment is
-- atomic: the test of `process_num`, the clean start, the increment. Two processes interleave them.
use franka_kistar_r_exp_gwb.Common.{◌≡◌, Bool, true, false, some, List, [], ◌∷◌, arith, ◌==◌}
use franka_kistar_r_exp_gwb.Double.{Double}
use franka_kistar_r_exp_gwb.Shm.Defs.{ShmMsgs}
use franka_kistar_r_exp_gwb.Shm.Attach.{init_shm, delete_shared_memory, clean_start, atomic_inc}

-- Where a process stands in `init_shm`, behind a successful `shmat`.
pub data Stage : Type 0 where
  entered : Stage
  checked : Bool → Stage
  cleaned : Stage
  ready : Stage

pub record Race (F : Type 0) : Type 0 where
  pub first : Stage
  pub second : Stage
  pub shm : ShmMsgs F

module _ {F : Type 0} ⦃d : Double F⦄ where
  unfoldable pub advance : Stage → ShmMsgs F → Stage × ShmMsgs F
  unfolding clean_start
  advance entered shm = (checked (shm.process_num == 0), shm)
  advance (checked true) shm = (cleaned, clean_start shm)
  advance (checked false) shm = (cleaned, shm)
  advance cleaned shm = (ready, record shm { process_num = atomic_inc shm.process_num })
  advance ready shm = (ready, shm)

  -- The schedule names the process that moves: `true` the first.
  unfoldable pub interleave : List Bool → Race F → Race F
  unfolding advance
  interleave [] r = r
  interleave (true ∷ l) r =
      let (p, s) = advance r.first r.shm in interleave l (record r { first = p; shm = s })
  interleave (false ∷ l) r =
      let (p, s) = advance r.second r.shm in interleave l (record r { second = p; shm = s })

  abbrev pub both_enter : ShmMsgs F → Race F
  both_enter s = record { first = entered; second = entered; shm = s }

  -- A process that is not interrupted attaches as `init_shm` says, wherever the other one stands.
  pub interleave-init_shm :
      (s : ShmMsgs F) (other : Stage)
      → let r =
          interleave
            (true ∷ true ∷ true ∷ [])
            (record { first = entered; second = other; shm = s }) in
        (init_shm true true s ≡ some r.shm) × (r.first ≡ ready) × (r.second ≡ other)
  unfolding interleave init_shm
  interleave-init_shm s other = ground arith

  -- If two processes both test a segment that nobody holds, then one of them clears it and counts
  -- itself, and then the other one does, both attach and the counter is 1, so the first of them to
  -- leave removes the segment, if the kernel allows it.
  pub interleave-lost_count :
      (s : ShmMsgs F)
      → s.process_num ≡ 0
      → let r = interleave (true ∷ false ∷ true ∷ true ∷ false ∷ false ∷ []) (both_enter s) in
        (r.first ≡ ready)
        × (r.second ≡ ready)
        × (r.shm.process_num ≡ 1)
        × ((delete_shared_memory true (some r.shm)).1 ≡ true)
  unfolding interleave delete_shared_memory
  interleave-lost_count s h = ground arith
