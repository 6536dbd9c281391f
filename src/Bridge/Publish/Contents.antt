-- ===== src/Bridge/Publish/Contents.antt =====
-- What `publish_from_shared_memory` publishes, as plain lists.
use Prim.Native.String.{String}
use franka_kistar_r_exp_gwb.Common.{
  ℕ, ◌≡◌, refl, sym, subst, ap₂, List, [], ◌∷◌, map, for_range, tabulate, concat,
}
use franka_kistar_r_exp_gwb.Common.Int.{ℤ}
use franka_kistar_r_exp_gwb.Double.{Double}
use franka_kistar_r_exp_gwb.Shm.{ShmMsgs}
use franka_kistar_r_exp_gwb.Bridge.Layout.{
  Dimension, MultiArray, make_message_with_layout, make_message_with_layout_64, layout_dims,
  stride_of,
}
use franka_kistar_r_exp_gwb.Bridge.Publish.{
  Messages, Payload, reals, ints, number, real, initial_messages, fill_messages, publications,
  publish_from_shared_memory, publish_all,
}

-- What a subscriber sees of a message.
pub data Content (F : Type 0) : Type 0 where
  shaped : List ℕ → List F → Content F
  plain : List ℤ → Content F
  count : ℕ → Content F
  scalar : F → Content F

abbrev pub sizes : List Dimension → List ℕ
sizes [] = []
sizes (x ∷ xs) = x.size ∷ sizes xs

abbrev pub content : {F : Type 0} → Payload F → Content F
content (reals m) = shaped (sizes m.dim) (tabulate m.data'.size m.data'.cells)
content (ints m) = plain (tabulate m.data'.size m.data'.cells)
content (number n) = count n
content (real x) = scalar x

-- The message with other cells.
abbrev pub with_cells : {A : Type 0} → MultiArray A → (ℕ → A) → MultiArray A
with_cells m a = record m { data' = record { size = m.data'.size; cells = a } }

module _ {F : Type 0} ⦃d : Double F⦄ where
  abbrev pub seen : List (String × Payload F) → List (String × Content F)
  seen [] = []
  seen ((topic, m) ∷ ms) = (topic, content m) ∷ seen ms

  -- What a tick should publish: each part of the memory on its topic, once and whole.
  abbrev pub snapshot : ShmMsgs F → List (String × Content F)
  snapshot shm =
      ("/hand/joint_position", shaped (16 ∷ []) (map d.of_int (tabulate 16 (shm.j_pos 0))))
      ∷ (
        "/hand/joint_kinesthetic",
        shaped (4 ∷ 3 ∷ [])
            (map d.of_int (concat (tabulate 4 (λ finger. tabulate 3 (shm.j_kin 0 finger))))),
      )
      ∷ ("/hand/joint_tactile", shaped (60 ∷ []) (map d.of_int (tabulate 60 (shm.j_tac 0))))
      ∷ ("/hand/hand_mode", count (shm.hand_mode 0))
      ∷ ("/hand/servo_on", count (shm.servo_on 0))
      ∷ ("/hand/joint_target", plain (tabulate 16 (shm.j_tar 0)))
      ∷ ("/franka/joint_position", shaped (7 ∷ []) (tabulate 7 (shm.arm_j_pos 0)))
      ∷ ("/franka/joint_target", shaped (7 ∷ []) (tabulate 7 (shm.arm_j_tar 0)))
      ∷ ("/franka/joint_velocity", shaped (7 ∷ []) (tabulate 7 (shm.arm_j_vel 0)))
      ∷ ("/franka/joint_torque", shaped (7 ∷ []) (tabulate 7 (shm.arm_j_tq 0)))
      ∷ ("/franka/speed_factor", scalar (shm.arm_speed_factor 0))
      ∷ []

  -- The messages of the constructor with the cells and the targets of `m`.
  abbrev shaped_like : Messages F → Messages F
  shaped_like m =
      let i : Messages F = initial_messages in
      record m {
        joint_position = with_cells i.joint_position m.joint_position.data'.cells;
        joint_kinesthetic = with_cells i.joint_kinesthetic m.joint_kinesthetic.data'.cells;
        joint_tactile = with_cells i.joint_tactile m.joint_tactile.data'.cells;
        franka_joint_position =
            with_cells i.franka_joint_position m.franka_joint_position.data'.cells;
        franka_joint_target = with_cells i.franka_joint_target m.franka_joint_target.data'.cells;
        franka_joint_velocity =
            with_cells i.franka_joint_velocity m.franka_joint_velocity.data'.cells;
        franka_joint_torque = with_cells i.franka_joint_torque m.franka_joint_torque.data'.cells;
      }

  fill_messages-shape :
      (shm : ShmMsgs F) (m : Messages F)
      → fill_messages shm (shaped_like m) ≡ shaped_like (fill_messages shm (shaped_like m))
  unfolding initial_messages make_message_with_layout make_message_with_layout_64 layout_dims
      stride_of fill_messages for_range
  fill_messages-shape shm m = refl

  fill_messages-snapshot :
      (shm : ShmMsgs F) (m : Messages F)
      → seen (publications (fill_messages shm (shaped_like m))) ≡ snapshot shm
  unfolding initial_messages make_message_with_layout make_message_with_layout_64 layout_dims
      stride_of fill_messages for_range
  fill_messages-snapshot shm m = refl

  publish_all-snapshot :
      (shms : List (ShmMsgs F)) (m : Messages F)
      → m ≡ shaped_like m
      → map seen (publish_all shms m).1 ≡ map snapshot shms
  unfolding publish_all publish_from_shared_memory
  publish_all-snapshot [] m h = refl
  publish_all-snapshot (shm ∷ shms) m h =
      ap₂ (λ x xs. x ∷ xs)
        (subst (λ k. seen (publications (fill_messages shm k)) ≡ snapshot shm) (sym h)
          (fill_messages-snapshot shm m))
        (publish_all-snapshot shms (fill_messages shm m) (
          subst (λ k. fill_messages shm k ≡ shaped_like (fill_messages shm k)) (sym h)
            (fill_messages-shape shm m)))

module _ (F : Type 0) ⦃d : Double F⦄ where
  -- From its start on, every tick of the bridge publishes just what the shared memory then holds:
  -- each part once, whole, with its shape and on its own topic, whatever was published before.
  pub publish_from_shared_memory-snapshot :
      (shms : List (ShmMsgs F)) → map seen (publish_all shms initial_messages).1 ≡ map snapshot shms
  unfolding initial_messages
  publish_from_shared_memory-snapshot shms = publish_all-snapshot shms initial_messages refl
