-- ===== src/Ethercat/Pdo/Send.antt =====
-- What a round of `ecatthread` (src/Ethercat_setting.cpp) sends to a hand.
use franka_kistar_r_exp_gwb.Common.{
  ℕ, ◌+◌, ◌*◌, ◌-◌, ◌%◌, ◌<◌, ◌≡◌, refl, ap₂, subst, ◌∙◌, ◌&&◌, false, Array, arith, for_range_inv,
  ltb, leb, ◌==◌, if◌then◌else◌,
}
use franka_kistar_r_exp_gwb.Common.Int.{ℤ, pos, negsuc}
use franka_kistar_r_exp_gwb.Double.{Double}
use franka_kistar_r_exp_gwb.Shm.{ShmMsgs, hand_dof}
use franka_kistar_r_exp_gwb.Ethercat.Pdo.{
  Buffers, word, set_word, to_uint16, copy_to, fill_tx, exchange,
}
use franka_kistar_r_exp_gwb.Ethercat.Pdo.Words.{word-set_word, copy_to_lem}

to_uint16_small : (z : ℤ) → to_uint16 z % 65536 ≡ to_uint16 z
to_uint16_small (pos n) = omega arith
to_uint16_small (negsuc n) = omega arith

module _ {F : Type 0} ⦃d : Double F⦄ where
  -- The words of kistar_tx[hand] after the round has filled it.
  abbrev tx_word : ShmMsgs F → ℕ → Array ℕ → ℕ → ℕ
  tx_word shm hand tx j =
      if leb 2 j && ltb j 18
      then to_uint16 (shm.j_tar hand (j - 2))
      else if j == 1
      then shm.hand_mode hand % 65536
      else if j == 0
      then (if shm.servo_on hand == 1 then 65535 else 0)
      else word tx j

  head_word :
      (shm : ShmMsgs F) (hand : ℕ) (tx : Array ℕ) (j : ℕ)
      → word
          (set_word 1
            (shm.hand_mode hand)
            (set_word 0 (if shm.servo_on hand == 1 then 65535 else 0) tx))
          j
        ≡ (if j == 1
            then shm.hand_mode hand % 65536
            else if j == 0
            then (if shm.servo_on hand == 1 then 65535 else 0)
            else word tx j)
  head_word shm hand tx j =
      let status = if shm.servo_on hand == 1 then 65535 else 0 in
      let b = set_word 0 status tx in
      word-set_word 1 (shm.hand_mode hand) j b ∙ rw (word-set_word 0 status j tx) (ground arith)

  fill_tx-word :
      (shm : ShmMsgs F) (hand : ℕ) (tx : Array ℕ) (j : ℕ)
      → word (fill_tx shm hand tx) j ≡ tx_word shm hand tx j
  unfolding fill_tx
  fill_tx-word shm hand tx j =
      let b1 = set_word 0 (if shm.servo_on hand == 1 then 65535 else 0) tx in
      let b2 = set_word 1 (shm.hand_mode hand) b1 in
      for_range_inv (λ i b. set_word (2 + i) (to_uint16 (shm.j_tar hand i)) b)
        (λ i b.
          word b j
          ≡ (if leb 2 j && ltb j (2 + i) then to_uint16 (shm.j_tar hand (j - 2)) else word b2 j))
        hand_dof 0 hand_dof b2 (ground arith)
        (λ i b h. ground (
          arith,
          word-set_word (2 + i) (to_uint16 (shm.j_tar hand i)) j b,
          to_uint16_small (shm.j_tar hand i),
        ))
        (omega arith)
      ∙ rw (head_word shm hand tx j) refl

  outputs_word :
      (inputs : Array ℕ) (hand : ℕ) (b : Buffers) (shm : ShmMsgs F) (m : ℕ)
      → m < 32
      → word (exchange inputs hand (b, shm)).0.outputs (32 * hand + m)
        ≡ word (fill_tx shm hand (b.tx hand)) m
  unfolding exchange
  outputs_word inputs hand b shm m l =
      let tx = fill_tx shm hand (b.tx hand) in
      ap₂ (λ x y. x + 256 * y) (byte tx (2 * m) (2 * (32 * hand + m)) (omega arith) (omega arith))
        (byte tx (2 * m + 1) (2 * (32 * hand + m) + 1) (omega arith) (omega arith))
    where
      byte :
          (tx : Array ℕ) (k at' : ℕ)
          → k < 64
          → at' ≡ hand * 64 + k
          → copy_to 64 (hand * 64) tx b.outputs at' ≡ tx k
      byte tx k at' below e =
          let back : at' - hand * 64 ≡ k = omega arith in
          copy_to_lem 64 (hand * 64) tx b.outputs at'
          ∙ subst
              (λ z.
                (if leb (hand * 64) at' && ltb at' (hand * 64 + 64)
                  then tx (at' - hand * 64)
                  else b.outputs at')
                ≡ tx z)
              back (ground arith)

  -- What the outputs of a hand say of the memory.
  pub record IsSent (shm : ShmMsgs F) (hand : ℕ) (out : Array ℕ) : Type 0 where
    pub status : word out (32 * hand) ≡ (if shm.servo_on hand == 1 then 65535 else 0)
    pub mode : word out (32 * hand + 1) ≡ shm.hand_mode hand % 65536
    pub targets :
        (i : ℕ) → i < hand_dof → word out (32 * hand + (2 + i)) ≡ to_uint16 (shm.j_tar hand i)

  pub exchange-IsSent :
      (inputs : Array ℕ) (hand : ℕ) (b : Buffers) (shm : ShmMsgs F)
      → IsSent shm hand (exchange inputs hand (b, shm)).0.outputs
  exchange-IsSent inputs hand b shm = record {
    status =
        subst
          (λ k.
            word (exchange inputs hand (b, shm)).0.outputs k
            ≡ (if shm.servo_on hand == 1 then 65535 else 0))
          first (sent 0 (omega arith) ∙ ground arith);
    mode = sent 1 (omega arith) ∙ ground arith;
    targets = λ i l. sent (2 + i) (omega arith) ∙ target i l;
  }
    where
      first : 32 * hand + 0 ≡ 32 * hand
      first = omega arith

      sent :
          (m : ℕ)
          → m < 32
          → word (exchange inputs hand (b, shm)).0.outputs (32 * hand + m)
            ≡ tx_word shm hand (b.tx hand) m
      sent m l = outputs_word inputs hand b shm m l ∙ fill_tx-word shm hand (b.tx hand) m

      target :
          (i : ℕ) → i < 16 → tx_word shm hand (b.tx hand) (2 + i) ≡ to_uint16 (shm.j_tar hand i)
      target i l =
          let back : 2 + i - 2 ≡ i = omega arith in
          subst (λ z. tx_word shm hand (b.tx hand) (2 + i) ≡ to_uint16 (shm.j_tar hand z)) back
            (ground arith)

  -- No byte of another hand is written.
  pub exchange-outside :
      (inputs : Array ℕ) (hand : ℕ) (b : Buffers) (shm : ShmMsgs F) (k : ℕ)
      → (leb (hand * 64) k && ltb k (hand * 64 + 64)) ≡ false
      → (exchange inputs hand (b, shm)).0.outputs k ≡ b.outputs k
  unfolding exchange
  exchange-outside inputs hand b shm k h =
      copy_to_lem 64 (hand * 64) (fill_tx shm hand (b.tx hand)) b.outputs k ∙ rw h refl
