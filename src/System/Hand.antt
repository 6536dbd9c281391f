-- ===== src/System/Hand.antt =====
-- The hand between the topics of ros2/kistar_hand_bridge/src/kistar_hand_bridge_node.cpp and the
-- process data of `ecatthread` (src/Ethercat_setting.cpp).
use Prim.Native.String.{String}
use mathlib.Core.List.{map-append}
use franka_kistar_r_exp_gwb.Common.{
  ℕ, ◌+◌, ◌*◌, ◌%◌, ◌<◌, ◌≡◌, refl, ap, ◌∙◌, List, [], ◌∷◌, ◌++◌, map, Array, arith, length, get_or,
  lt→ltb, ◌==◌, if◌then◌else◌, tabulate, tabulate_from-congr, concat,
}
use franka_kistar_r_exp_gwb.Common.Int.{ℤ, pos, negsuc, ◌≤ℤ◌}
use franka_kistar_r_exp_gwb.Double.{Double}
use franka_kistar_r_exp_gwb.Shm.{ShmMsgs, hand_dof}
use franka_kistar_r_exp_gwb.Kinematics.Transform.{Maths}
use franka_kistar_r_exp_gwb.Bridge.Targets.{
  to_uint8, on_hand_target, on_hand_mode, on_hand_servo_on,
}
use franka_kistar_r_exp_gwb.Bridge.Targets.Effects.{on_hand_target_lem}
use franka_kistar_r_exp_gwb.Bridge.Publish.{publish_all, initial_messages}
use franka_kistar_r_exp_gwb.Bridge.Publish.Contents.{
  Content, shaped, plain, count, scalar, seen, snapshot, publish_from_shared_memory-snapshot,
}
use franka_kistar_r_exp_gwb.Ethercat.Pdo.{word, to_uint16, to_int16}
use franka_kistar_r_exp_gwb.Ethercat.Pdo.Words.{to_int16-to_uint16}
use franka_kistar_r_exp_gwb.Ethercat.Pdo.Receive.{sensor}
use franka_kistar_r_exp_gwb.Ethercat.Cycle.{Setup, RoundAnswers, Thread, round}
use franka_kistar_r_exp_gwb.Ethercat.Cycle.Poses.{OnlyMeasures}
use franka_kistar_r_exp_gwb.Ethercat.Cycle.Data.{IsReceived, IsClear, round_serves}

to_uint8_small : (z : ℤ) → to_uint8 z % 65536 ≡ to_uint8 z
unfolding to_uint8
to_uint8_small (pos n) = omega arith
to_uint8_small (negsuc n) = omega arith

module _ {F : Type 0} ⦃d : Double F⦄ where
  -- The memory behind three messages to the hand.
  abbrev pub commanded : List ℤ → ℤ → ℤ → ShmMsgs F → ShmMsgs F
  commanded values mode servo shm =
      on_hand_servo_on servo (on_hand_mode mode (on_hand_target values shm))

  commanded_target :
      (values : List ℤ) (mode servo : ℤ) (shm : ShmMsgs F)
      → length values ≡ hand_dof
      → (i : ℕ) → i < hand_dof
      → (commanded values mode servo shm).j_tar 0 i ≡ get_or values i (pos 0)
  unfolding on_hand_mode on_hand_servo_on
  commanded_target values mode servo shm fits i l =
      (on_hand_target_lem values shm).0 0 i ∙ rw (fits, lt→ltb i hand_dof l)

  commanded_mode :
      (values : List ℤ) (mode servo : ℤ) (shm : ShmMsgs F)
      → (commanded values mode servo shm).hand_mode 0 ≡ to_uint8 mode
  unfolding on_hand_mode on_hand_servo_on
  commanded_mode values mode servo shm = refl

  commanded_servo :
      (values : List ℤ) (mode servo : ℤ) (shm : ShmMsgs F)
      → (commanded values mode servo shm).servo_on 0 ≡ to_uint8 servo
  unfolding on_hand_servo_on
  commanded_servo values mode servo shm = refl

module _ {F : Type 0} ⦃d : Double F⦄ ⦃m : Maths F⦄ where
  -- From the topics to the hand, if the digital output, should there be one, lies behind the hands'
  -- outputs: after a message of sixteen `int16_t` targets, one of the mode and
  -- one of the servo, the next round of the running thread sends the hand just these targets, the
  -- mode as a byte, and a status word of ones exactly if the servo's byte is 1.
  pub topic_to_hand :
      (values : List ℤ) (mode servo : ℤ) (old : ShmMsgs F) (u : Setup) (a : RoundAnswers)
      (t : Thread F)
      → length values ≡ hand_dof
      → ((i : ℕ)
          → i < hand_dof
          → (negsuc 32767 ≤ℤ get_or values i (pos 0)) × (get_or values i (pos 0) ≤ℤ pos 32767))
      → t.shm ≡ commanded values mode servo old
      → 0 < t.dorun
      → 0 < u.active_hand_num
      → IsClear u.active_hand_num u.digout
      → let out = (round u a t).buffers.outputs in
        (word out 0 ≡ (if to_uint8 servo == 1 then 65535 else 0))
        × (word out 1 ≡ to_uint8 mode)
        × ((i : ℕ) → i < hand_dof → to_int16 (word out (2 + i)) ≡ get_or values i (pos 0))
  topic_to_hand values mode servo old u a t fits range e run some_hand clear =
      let (sent, _, _) = round_serves u a t run clear in
      let s = sent 0 some_hand in
      (
        s.status
            ∙ ap (λ k. if k == 1 then 65535 else 0)
                (ap (λ (x : ShmMsgs F). x.servo_on 0) e ∙ commanded_servo values mode servo old),
        s.mode
            ∙ ap (λ k. k % 65536)
                (ap (λ (x : ShmMsgs F). x.hand_mode 0) e ∙ commanded_mode values mode servo old)
            ∙ to_uint8_small mode,
        λ i l.
            let (lo, hi) = range i l in
            let place : 2 + i ≡ 32 * 0 + (2 + i) = omega arith in
            ap to_int16 (
              ap (word (round u a t).buffers.outputs) place
              ∙ s.targets i l
              ∙ ap to_uint16 (
                  ap (λ (x : ShmMsgs F). x.j_tar 0 i) e
                  ∙ commanded_target values mode servo old fits i l))
            ∙ to_int16-to_uint16 (get_or values i (pos 0)) lo hi,
      )

tabulate-congr :
    {A : Type 0} (n : ℕ) (f g : ℕ → A) → ((k : ℕ) → k < n → f k ≡ g k) → tabulate n f ≡ tabulate n g
tabulate-congr n f g h = tabulate_from-congr n 0 f g (λ k _ hi. h k (omega arith))

module _ {F : Type 0} ⦃d : Double F⦄ where
  -- The messages of a tick, from the measured values and the rest of the memory.
  abbrev pub report : List ℤ → List ℤ → List ℤ → ShmMsgs F → List (String × Content F)
  report positions forces taxels shm =
      ("/hand/joint_position", shaped (16 ∷ []) (map d.of_int positions))
      ∷ ("/hand/joint_kinesthetic", shaped (4 ∷ 3 ∷ []) (map d.of_int forces))
      ∷ ("/hand/joint_tactile", shaped (60 ∷ []) (map d.of_int taxels))
      ∷ ("/hand/hand_mode", count (shm.hand_mode 0))
      ∷ ("/hand/servo_on", count (shm.servo_on 0))
      ∷ ("/hand/joint_target", plain (tabulate 16 (shm.j_tar 0)))
      ∷ ("/franka/joint_position", shaped (7 ∷ []) (tabulate 7 (shm.arm_j_pos 0)))
      ∷ ("/franka/joint_target", shaped (7 ∷ []) (tabulate 7 (shm.arm_j_tar 0)))
      ∷ ("/franka/joint_velocity", shaped (7 ∷ []) (tabulate 7 (shm.arm_j_vel 0)))
      ∷ ("/franka/joint_torque", shaped (7 ∷ []) (tabulate 7 (shm.arm_j_tq 0)))
      ∷ ("/franka/speed_factor", scalar (shm.arm_speed_factor 0))
      ∷ []

  -- The words that the hand sends, as the measured values.
  abbrev pub reported : Array ℕ → ShmMsgs F → List (String × Content F)
  reported inputs shm =
      let value = sensor inputs 0 in
      report (tabulate 16 (λ i. value (2 + i)))
        (concat (tabulate 4 (λ finger. tabulate 3 (λ axis. value (34 + (3 * finger + axis))))))
        (tabulate 60 (λ i. value (46 + i))) shm

  snapshot-reported :
      (inputs : Array ℕ) (old shm : ShmMsgs F)
      → IsReceived inputs shm 0
      → OnlyMeasures old shm
      → snapshot shm ≡ reported inputs old
  snapshot-reported inputs old shm r same =
      let value = sensor inputs 0 in
      let positions = tabulate-congr 16 (shm.j_pos 0) (λ i. value (2 + i)) r.positions in
      let forces =
        tabulate-congr 4 (λ finger. tabulate 3 (shm.j_kin 0 finger))
          (λ finger. tabulate 3 (λ axis. value (34 + (3 * finger + axis))))
          (λ finger l.
            tabulate-congr 3 (shm.j_kin 0 finger) _ (λ axis k. r.forces finger axis l k)) in
      let taxels = tabulate-congr 60 (shm.j_tac 0) (λ i. value (46 + i)) r.taxels in
      λ k. report (positions k) (concat (forces k)) (taxels k) (same k)

module _ {F : Type 0} ⦃d : Double F⦄ ⦃m : Maths F⦄ where
  -- From the hand to the topics: a tick of the bridge behind a round of the running thread
  -- publishes the joint positions, the kinesthetic and the tactile values that the hand sent in
  -- that round, at their places, and of the rest what the memory held before, whatever was
  -- published earlier.
  pub hand_to_topic :
      (u : Setup) (a : RoundAnswers) (t : Thread F) (earlier : List (ShmMsgs F))
      → 0 < t.dorun
      → 0 < u.active_hand_num
      → IsClear u.active_hand_num u.digout
      → map seen (publish_all (earlier ++ (round u a t).shm ∷ []) initial_messages).1
        ≡ map snapshot earlier ++ reported a.inputs t.shm ∷ []
  hand_to_topic u a t earlier run some_hand clear =
      let (_, got, same) = round_serves u a t run clear in
      publish_from_shared_memory-snapshot F (earlier ++ (round u a t).shm ∷ [])
      ∙ map-append snapshot earlier ((round u a t).shm ∷ [])
      ∙ ap (λ x. map snapshot earlier ++ x ∷ [])
          (snapshot-reported a.inputs t.shm (round u a t).shm (got 0 some_hand) same)
