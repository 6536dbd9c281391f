-- ===== src/Bridge/Targets.antt =====
-- ros2/kistar_hand_bridge/src/kistar_hand_bridge_node.cpp: the handlers of the target topics, over
-- an attached segment.
use franka_kistar_r_exp_gwb.Common.{
  ℕ, ◌+◌, ◌-◌, ◌%◌, ◌≤◌, ◌<◌, ◌≡◌, ◌≢◌, refl, Bool, true, false, not, List, [], ◌∷◌, Array, arith,
  update, copy, copy_lem, length, get_or, ltb, ◌==◌, if◌then◌else◌, Bool-cases, inl, inr,
}
use franka_kistar_r_exp_gwb.Common.Int.{ℤ, pos, negsuc}
use franka_kistar_r_exp_gwb.Double.{Double, IsIeee, ◌≼◌, IsFinite, nought}
use franka_kistar_r_exp_gwb.Shm.{ShmMsgs, arm_dof, hand_dof}
pub mod Effects

-- static_cast<uint8_t> of an int32_t
unfoldable pub to_uint8 : ℤ → ℕ
to_uint8 (pos n) = n % 256
to_uint8 (negsuc n) = 255 - n % 256

module _ {F : Type 0} ⦃d : Double F⦄ where
  unfoldable pub on_franka_target : List F → ShmMsgs F → ShmMsgs F
  on_franka_target data' shm = if not (length data' == arm_dof) then shm else record shm {
    arm_j_tar =
        update shm.arm_j_tar 0 (copy arm_dof (λ i. get_or data' i nought) (shm.arm_j_tar 0));
  }

  -- The clamp of `on_franka_speed`.
  unfoldable pub clamp_speed : F → F
  clamp_speed speed =
      if d.lt speed (d.of_nano (pos 1_000_000))
      then d.of_nano (pos 1_000_000)
      else if d.lt (d.of_nano (pos 1_000_000_000)) speed
      then d.of_nano (pos 1_000_000_000)
      else speed

  unfoldable pub on_franka_speed : F → ShmMsgs F → ShmMsgs F
  on_franka_speed data' shm = record shm {
    arm_speed_factor = update shm.arm_speed_factor 0 (clamp_speed data');
  }

  unfoldable pub on_hand_target : List ℤ → ShmMsgs F → ShmMsgs F
  on_hand_target data' shm = if not (length data' == hand_dof) then shm else record shm {
    j_tar = update shm.j_tar 0 (copy hand_dof (λ i. get_or data' i (pos 0)) (shm.j_tar 0));
  }

  unfoldable pub on_hand_mode : ℤ → ShmMsgs F → ShmMsgs F
  on_hand_mode data' shm = record shm { hand_mode = update shm.hand_mode 0 (to_uint8 data') }

  unfoldable pub on_hand_servo_on : ℤ → ShmMsgs F → ShmMsgs F
  on_hand_servo_on data' shm = record shm { servo_on = update shm.servo_on 0 (to_uint8 data') }
