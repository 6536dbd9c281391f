-- ===== src/Ethercat/Pdo/Receive.antt =====
-- What a round of `ecatthread` (src/Ethercat_setting.cpp) takes from a hand.
use franka_kistar_r_exp_gwb.Common.{
  ℕ, ◌+◌, ◌*◌, ◌<◌, ◌≡◌, refl, ap, ap₂, subst, ◌∙◌, ◌&&◌, Array, arith, update, copy, copy_lem,
  for_range, for_range_inv, ltb, lt→ltb, ltb→lt, ◌==◌, ==_refl, if◌then◌else◌, Bool-cases, inl, inr,
}
use franka_kistar_r_exp_gwb.Common.Int.{ℤ}
use franka_kistar_r_exp_gwb.Double.{Double}
use franka_kistar_r_exp_gwb.Shm.{
  ShmMsgs, hand_dof, tactile_sensor_num, kinesthetic_sensor_num, kinesthetic_sensor_dof,
}
use franka_kistar_r_exp_gwb.Ethercat.Pdo.{Buffers, word, to_int16, read_rx, exchange}

-- The row `h` of an array gets `n` new values.
row_lem :
    {A : Type 0} (n h : ℕ) (v w : Array A) (old : Array (Array A))
    → ((k : ℕ) → k < n → v k ≡ w k)
    → (a k : ℕ) → update old h (copy n v (old h)) a k ≡ (if a == h && ltb k n then w k else old a k)
row_lem n h v w old same a k = elim (Bool-cases (a == h)) [
  | inl e ↦
      let here : h ≡ a = ground arith in
      subst
        (λ x. update old h (copy n v (old h)) x k ≡ (if x == h && ltb k n then w k else old x k))
        here (rw (==_refl h) (copy_lem n v (old h) k ∙ chosen k))
  | inr e ↦ rw e refl
]
  where
    chosen : (k : ℕ) → (if ltb k n then v k else old h k) ≡ (if ltb k n then w k else old h k)
    chosen k = elim (Bool-cases (ltb k n)) [
      | inl l ↦ rw l (same k (ltb→lt k n l))
      | inr l ↦ rw l refl
    ]

grid_lem :
    {A : Type 0} (n m : ℕ) (v : ℕ → Array A) (old : Array (Array A)) (i j : ℕ)
    → for_range n 0 (λ k a. update a k (copy m (v k) (a k))) old i j
      ≡ (if ltb i n && ltb j m then v i j else old i j)
grid_lem n m v old i j =
    for_range_inv (λ k a. update a k (copy m (v k) (a k)))
      (λ k a. a i j ≡ (if ltb i k && ltb j m then v i j else old i j)) n 0 n old (ground arith)
      (λ k a h. ground (arith, row_lem m k (v k) (v k) a (λ _ _. refl) i j)) (omega arith)

-- The value of the word `k` that the hand sends.
abbrev pub sensor : Array ℕ → ℕ → ℕ → ℤ
sensor inputs hand k = to_int16 (word inputs (128 * hand + k))

rx_value :
    (inputs : Array ℕ) (hand : ℕ) (old : Array ℕ) (k : ℕ)
    → k < 128
    → to_int16 (word (copy 256 (λ i. inputs (hand * 256 + i)) old) k) ≡ sensor inputs hand k
rx_value inputs hand old k l =
    ap₂ (λ x y. to_int16 (x + 256 * y))
      (byte (2 * k) (2 * (128 * hand + k)) (omega arith) (omega arith))
      (byte (2 * k + 1) (2 * (128 * hand + k) + 1) (omega arith) (omega arith))
  where
    byte :
        (j at' : ℕ)
        → j < 256
        → hand * 256 + j ≡ at'
        → copy 256 (λ i. inputs (hand * 256 + i)) old j ≡ inputs at'
    byte j at' below e =
        copy_lem 256 (λ i. inputs (hand * 256 + i)) old j ∙ rw (lt→ltb j 256 below) (ap inputs e)

module _ {F : Type 0} ⦃d : Double F⦄ where
  -- The measured values of the hand are the words it sends, read as `int16_t`, at their places:
  -- positions, currents, kinesthetic and tactile sensors. No other hand's values and no other field
  -- changes.
  pub exchange_receives :
      (inputs : Array ℕ) (hand : ℕ) (b : Buffers) (shm : ShmMsgs F)
      → let s = (exchange inputs hand (b, shm)).1 in
        let value = sensor inputs hand in
        ((a i : ℕ)
          → s.j_pos a i ≡ (if a == hand && ltb i hand_dof then value (2 + i) else shm.j_pos a i))
        × ((a i : ℕ)
            → s.j_cur a i ≡ (if a == hand && ltb i hand_dof then value (18 + i) else shm.j_cur a i))
        × ((a i : ℕ)
            → s.j_tac a i
              ≡ (if a == hand && ltb i tactile_sensor_num then value (46 + i) else shm.j_tac a i))
        × ((a i j : ℕ)
            → s.j_kin a i j ≡ (
                if a == hand && (ltb i kinesthetic_sensor_num && ltb j kinesthetic_sensor_dof)
                then value (34 + (3 * i + j))
                else shm.j_kin a i j))
        × (s ≡ record shm { j_pos = s.j_pos; j_cur = s.j_cur; j_tac = s.j_tac; j_kin = s.j_kin })
  unfolding exchange read_rx
  exchange_receives inputs hand b shm =
      let rx = copy 256 (λ i. inputs (hand * 256 + i)) (b.rx hand) in
      let value = λ (k : ℕ). to_int16 (word rx k) in
      let same = λ (k : ℕ) (l : k < 128). rx_value inputs hand (b.rx hand) k l in
      (
        row_lem 16 hand (λ i. value (2 + i)) (λ i. sensor inputs hand (2 + i)) shm.j_pos
            (λ k l. same (2 + k) (omega arith)),
        row_lem 16 hand (λ i. value (18 + i)) (λ i. sensor inputs hand (18 + i)) shm.j_cur
            (λ k l. same (18 + k) (omega arith)),
        row_lem 60 hand (λ i. value (46 + i)) (λ i. sensor inputs hand (46 + i)) shm.j_tac
            (λ k l. same (46 + k) (omega arith)),
        λ a i j. kin (λ k. to_int16 (word rx k)) same a i j,
        refl,
      )
    where
      kin :
          (value : ℕ → ℤ)
          → ((k : ℕ) → k < 128 → value k ≡ sensor inputs hand k)
          → (a i j : ℕ)
          → update shm.j_kin hand
              (for_range 4 0
                (λ i a. update a i (copy 3 (λ j. value (34 + (3 * i + j))) (a i)))
                (shm.j_kin hand))
              a
              i
              j
            ≡ (if a == hand && (ltb i 4 && ltb j 3)
                then sensor inputs hand (34 + (3 * i + j))
                else shm.j_kin a i j)
      kin value same a i j =
          let grid = grid_lem 4 3 (λ i j. value (34 + (3 * i + j))) (shm.j_kin hand) i j in
          elim (Bool-cases (a == hand)) [
            | inl e ↦
                let here : hand ≡ a = ground arith in
                rw (e, ← here)
                  (grid ∙ elim (Bool-cases (ltb i 4 && ltb j 3)) [
                    | inl l ↦ rw l (same (34 + (3 * i + j)) (ground arith))
                    | inr l ↦ rw l refl
                  ])
            | inr e ↦ rw e refl
          ]
