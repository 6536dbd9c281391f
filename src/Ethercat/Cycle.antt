-- ===== src/Ethercat/Cycle.antt =====
-- src/Ethercat_setting.cpp: `ecatthread`. What SOEM answers in a round is an argument. The count
-- `dorun` is far below 2 ^ 31 in the time that the program runs.
use franka_kistar_r_exp_gwb.Common.{
  ℕ, ◌+◌, ◌/◌, ◌%◌, Bool, Option, none, some, List, [], ◌∷◌, Array, update, for_range, ltb,
  if◌then◌else◌,
}
use franka_kistar_r_exp_gwb.Common.Int.{ℤ, pos, ◌+ℤ◌}
use franka_kistar_r_exp_gwb.Double.{Double}
use franka_kistar_r_exp_gwb.Shm.{ShmMsgs}
use franka_kistar_r_exp_gwb.Kinematics.Transform.{Maths}
use franka_kistar_r_exp_gwb.Kinematics.Hand.{Pose, compute_hand_fk_from_joint_pos}
use franka_kistar_r_exp_gwb.Ethercat.Clock.{
  Timespec, SyncState, add_timespec, ec_sync, first_wake_up,
}
use franka_kistar_r_exp_gwb.Ethercat.Pdo.{Buffers, exchange}
pub mod Poses
pub mod Data
pub mod Forward

-- What `ethercat_run` has found out. `digout` is the place in the outputs where it points to.
pub record Setup : Type 0 where
  pub active_hand_num : ℕ
  pub digout : Option ℕ
  pub hasdc : Bool
  pub cycletime : ℕ

pub record RoundAnswers : Type 0 where
  pub wkc : ℤ
  pub inputs : Array ℕ
  pub dc_time : ℤ

pub record Thread (F : Type 0) : Type 0 where
  pub ts : Timespec
  pub sync : SyncState
  pub dorun : ℕ
  pub wkc : ℤ
  pub buffers : Buffers
  pub shm : ShmMsgs F

-- *digout = (dorun / 16) & 0xff, if there is a digout.
unfoldable pub write_digout : Option ℕ → ℕ → Array ℕ → Array ℕ
write_digout none dorun outputs = outputs
write_digout (some place) dorun outputs = update outputs place (dorun / 16 % 256)

module _ {F : Type 0} ⦃d : Double F⦄ ⦃m : Maths F⦄ where
  -- The poses that the memory holds of a hand.
  abbrev pub poses : ℕ → ShmMsgs F → Array (Pose F)
  poses hand shm finger = record { pos = shm.tip_pos hand finger; quat = shm.tip_quat hand finger }

  -- The call of `compute_hand_fk_from_joint_pos`.
  unfoldable pub update_poses : ℕ → ShmMsgs F → ShmMsgs F
  update_poses hand shm =
      let new = compute_hand_fk_from_joint_pos (shm.j_pos hand) (poses hand shm) in
      record shm {
        tip_pos = update shm.tip_pos hand (λ finger. (new finger).pos);
        tip_quat = update shm.tip_quat hand (λ finger. (new finger).quat);
      }

  -- The body of the loop over the hands.
  unfoldable pub serve_hand : Array ℕ → ℕ → Buffers × ShmMsgs F → Buffers × ShmMsgs F
  serve_hand inputs hand s = let t = exchange inputs hand s in (t.0, update_poses hand t.1)

  unfoldable pub serve_hands : ℕ → Array ℕ → Buffers × ShmMsgs F → Buffers × ShmMsgs F
  unfolding for_range
  serve_hands active_hand_num inputs s = for_range active_hand_num 0 (serve_hand inputs) s

  -- The outputs that are sent, if the round sends any, are those of its buffers.
  unfoldable pub round : Setup → RoundAnswers → Thread F → Thread F
  unfolding ◌+ℤ◌
  round u a t =
      let ts = add_timespec t.ts (pos u.cycletime +ℤ t.sync.toff) in
      if ltb 0 t.dorun
      then (let s = serve_hands u.active_hand_num a.inputs (t.buffers, t.shm) in
          let b : Buffers = s.0 in
          let dorun = t.dorun + 1 in
          record {
            ts = ts;
            sync = if u.hasdc then ec_sync a.dc_time u.cycletime t.sync else t.sync;
            dorun = dorun;
            wkc = a.wkc;
            buffers = record b { outputs = write_digout u.digout dorun b.outputs };
            shm = s.1;
          })
      else record t { ts = ts }

  -- The state that the loop starts from, with the time, the buffers and the memory after
  -- `init_shm`.
  abbrev pub start : Timespec → Buffers → ShmMsgs F → ℤ → ℤ → Thread F
  start now buffers shm integral gl_delta = record {
    ts = first_wake_up now;
    sync = record { integral = integral; toff = pos 0; gl_delta = gl_delta };
    dorun = 0;
    wkc = pos 0;
    buffers = buffers;
    shm = shm;
  }

  unfoldable pub rounds : Setup → List RoundAnswers → Thread F → Thread F
  rounds u [] t = t
  rounds u (a ∷ as') t = rounds u as' (round u a t)
