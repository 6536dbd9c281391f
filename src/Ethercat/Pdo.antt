-- ===== src/Ethercat/Pdo.antt =====
-- src/Ethercat_setting.cpp: the process data of a hand. The unions Robot_Hand_Command and
-- Robot_Hand_Data are their bytes; every member of the structs is a 16-bit word, in the order of
-- the declaration and in the little-endian order of the controller's processor.
use franka_kistar_r_exp_gwb.Common.{
  ℕ, ◌+◌, ◌*◌, ◌-◌, ◌/◌, ◌%◌, Bool, Array, update, for_range, copy, ltb, ◌==◌, if◌then◌else◌,
}
use franka_kistar_r_exp_gwb.Common.Int.{ℤ, pos, negsuc}
use franka_kistar_r_exp_gwb.Double.{Double}
use franka_kistar_r_exp_gwb.Shm.{
  ShmMsgs, hand_dof, kinesthetic_sensor_num, kinesthetic_sensor_dof, tactile_sensor_num,
}
pub mod Words
pub mod Send
pub mod Receive

-- The numbers of bytes: 128 words from a hand, 32 words to it.
abbrev pub hand_data_read_byte_num : ℕ
hand_data_read_byte_num = 256

abbrev pub hand_data_write_byte_num : ℕ
hand_data_write_byte_num = 64

-- The word `k` of a union.
abbrev pub word : Array ℕ → ℕ → ℕ
word b k = b (2 * k) + 256 * b (2 * k + 1)

abbrev pub set_word : ℕ → ℕ → Array ℕ → Array ℕ
set_word k v b = update (update b (2 * k) (v % 256)) (2 * k + 1) (v / 256 % 256)

-- The bit pattern of an `int16_t`, and the `int16_t` of a bit pattern.
abbrev pub to_uint16 : ℤ → ℕ
to_uint16 (pos n) = n % 65536
to_uint16 (negsuc n) = 65535 - n % 65536

abbrev pub to_int16 : ℕ → ℤ
to_int16 w = if ltb w 32768 then pos w else negsuc (65535 - w)

-- for (i = 0; i < n; ++i) dst[offset + i] = src[i]
unfoldable pub copy_to {ℓ} : {A : Type ℓ} → ℕ → ℕ → Array A → Array A → Array A
unfolding for_range
copy_to n offset src dst = for_range n 0 (λ i d. update d (offset + i) (src i)) dst

-- What a round works on, besides the shared memory: kistar_tx, kistar_rx and the outputs of the
-- process image.
pub record Buffers : Type 0 where
  pub tx : Array (Array ℕ)
  pub rx : Array (Array ℕ)
  pub outputs : Array ℕ

module _ {F : Type 0} ⦃d : Double F⦄ where
  -- Status words and targets go to kistar_tx[hand].
  unfoldable pub fill_tx : ShmMsgs F → ℕ → Array ℕ → Array ℕ
  unfolding for_range
  fill_tx shm hand tx =
      let b1 = set_word 0 (if shm.servo_on hand == 1 then 65535 else 0) tx in
      let b2 = set_word 1 (shm.hand_mode hand) b1 in
      for_range hand_dof 0 (λ i b. set_word (2 + i) (to_uint16 (shm.j_tar hand i)) b) b2

  -- The measured values of kistar_rx[hand] go to the shared memory.
  unfoldable pub read_rx : Array ℕ → ℕ → ShmMsgs F → ShmMsgs F
  unfolding for_range copy
  read_rx rx hand shm =
      let value = λ (k : ℕ). to_int16 (word rx k) in
      let kin =
        for_range kinesthetic_sensor_num 0
          (λ i a. update a i (copy kinesthetic_sensor_dof (λ j. value (34 + (3 * i + j))) (a i)))
          (shm.j_kin hand) in
      record shm {
        j_pos = update shm.j_pos hand (copy hand_dof (λ i. value (2 + i)) (shm.j_pos hand));
        j_cur = update shm.j_cur hand (copy hand_dof (λ i. value (18 + i)) (shm.j_cur hand));
        j_kin = update shm.j_kin hand kin;
        j_tac =
            update shm.j_tac hand (copy tactile_sensor_num (λ i. value (46 + i)) (shm.j_tac hand));
      }

  -- The body of the loop over the hands, up to the fingertips' poses.
  unfoldable pub exchange : Array ℕ → ℕ → Buffers × ShmMsgs F → Buffers × ShmMsgs F
  unfolding copy_to fill_tx read_rx copy
  exchange inputs hand (b, shm) =
      let tx = fill_tx shm hand (b.tx hand) in
      let rx =
        copy hand_data_read_byte_num (λ i. inputs (hand * hand_data_read_byte_num + i))
          (b.rx hand) in
      (
        record {
          tx = update b.tx hand tx;
          rx = update b.rx hand rx;
          outputs = copy_to hand_data_write_byte_num (hand * hand_data_write_byte_num) tx b.outputs;
        },
        read_rx rx hand shm,
      )
