-- ===== src/Ethercat/Cycle/Data.antt =====
-- What the hands send and get in a round of `ecatthread` (src/Ethercat_setting.cpp).
use franka_kistar_r_exp_gwb.Common.{
  ℕ, ◌+◌, ◌*◌, ◌%◌, ◌≤◌, ◌<◌, ◌≡◌, refl, ap, ap₂, ◌∙◌, inl, inr, false, Option, none, some, Array,
  arith, for_range_inv, lt→ltb, ◌==◌, ==_refl, if◌then◌else◌, Bool-cases,
}
use franka_kistar_r_exp_gwb.Double.{Double}
use franka_kistar_r_exp_gwb.Shm.{
  ShmMsgs, hand_dof, kinesthetic_sensor_num, kinesthetic_sensor_dof, tactile_sensor_num,
}
use franka_kistar_r_exp_gwb.Kinematics.Transform.{Maths}
use franka_kistar_r_exp_gwb.Ethercat.Pdo.{Buffers, word, to_uint16, exchange}
use franka_kistar_r_exp_gwb.Ethercat.Pdo.Send.{IsSent, exchange-IsSent, exchange-outside}
use franka_kistar_r_exp_gwb.Ethercat.Pdo.Receive.{sensor, exchange_receives}
use franka_kistar_r_exp_gwb.Ethercat.Cycle.{
  Setup, RoundAnswers, Thread, write_digout, update_poses, serve_hand, serve_hands, round,
}
use franka_kistar_r_exp_gwb.Ethercat.Cycle.Poses.{OnlyMeasures, measured_only, trans-OnlyMeasures}

-- A digital output, if there is one, lies behind the bytes of the hands.
abbrev pub IsClear : ℕ → Option ℕ → Type 0
IsClear n none = Unit
IsClear n (some place) = n * 64 ≤ place

write_digout-hand :
    (n : ℕ) (o : Option ℕ) (dorun : ℕ) (out : Array ℕ) (k : ℕ)
    → IsClear n o
    → k < n * 64
    → write_digout o dorun out k ≡ out k
unfolding write_digout
write_digout-hand n none dorun out k c l = refl
write_digout-hand n (some place) dorun out k c l = ground arith

module _ {F : Type 0} ⦃d : Double F⦄ where
  -- The memory's measured values of a hand are what the hand sends.
  pub record IsReceived (inputs : Array ℕ) (shm : ShmMsgs F) (hand : ℕ) : Type 0 where
    pub positions : (i : ℕ) → i < hand_dof → shm.j_pos hand i ≡ sensor inputs hand (2 + i)
    pub currents : (i : ℕ) → i < hand_dof → shm.j_cur hand i ≡ sensor inputs hand (18 + i)
    pub forces :
        (i j : ℕ)
        → i < kinesthetic_sensor_num
        → j < kinesthetic_sensor_dof
        → shm.j_kin hand i j ≡ sensor inputs hand (34 + (3 * i + j))
    pub taxels : (i : ℕ) → i < tactile_sensor_num → shm.j_tac hand i ≡ sensor inputs hand (46 + i)

  IsSent-congr :
      (shm shm' : ShmMsgs F) (hand : ℕ) (out out' : Array ℕ)
      → OnlyMeasures shm shm'
      → ((k : ℕ) → hand * 64 ≤ k → k < hand * 64 + 64 → out' k ≡ out k)
      → IsSent shm' hand out
      → IsSent shm hand out'
  IsSent-congr shm shm' hand out out' same bytes s = record {
    status =
        at (32 * hand) (omega arith) (omega arith)
        ∙ s.status
        ∙ ap (λ (m : ShmMsgs F). if m.servo_on hand == 1 then 65535 else 0) same;
    mode =
        at (32 * hand + 1) (omega arith) (omega arith)
        ∙ s.mode
        ∙ ap (λ (m : ShmMsgs F). m.hand_mode hand % 65536) same;
    targets = λ i l.
        at (32 * hand + (2 + i)) (omega arith) (omega arith)
        ∙ s.targets i l
        ∙ ap (λ (m : ShmMsgs F). to_uint16 (m.j_tar hand i)) same;
  }
    where
      at : (k : ℕ) → 32 * hand ≤ k → k < 32 * hand + 32 → word out' k ≡ word out k
      at k lo hi =
          ap₂ (λ x y. x + 256 * y) (bytes (2 * k) (omega arith) (omega arith))
            (bytes (2 * k + 1) (omega arith) (omega arith))

  received :
      (inputs : Array ℕ) (hand : ℕ) (b : Buffers) (shm : ShmMsgs F)
      → IsReceived inputs (exchange inputs hand (b, shm)).1 hand
  received inputs hand b shm =
      let (pos', cur, tac, kin, _) = exchange_receives inputs hand b shm in
      record {
        positions = λ i l. pos' hand i ∙ rw (==_refl hand, lt→ltb i hand_dof l);
        currents = λ i l. cur hand i ∙ rw (==_refl hand, lt→ltb i hand_dof l);
        forces = λ i j l m.
            kin hand i j
            ∙ rw (
              ==_refl hand,
              lt→ltb i kinesthetic_sensor_num l,
              lt→ltb j kinesthetic_sensor_dof m,
            );
        taxels = λ i l. tac hand i ∙ rw (==_refl hand, lt→ltb i tactile_sensor_num l);
      }

  still-IsReceived :
      (inputs : Array ℕ) (hand other : ℕ) (b : Buffers) (shm : ShmMsgs F)
      → (other == hand) ≡ false
      → IsReceived inputs shm other
      → IsReceived inputs (exchange inputs hand (b, shm)).1 other
  still-IsReceived inputs hand other b shm e r =
      let (pos', cur, tac, kin, _) = exchange_receives inputs hand b shm in
      record {
        positions = λ i l. pos' other i ∙ rw e (r.positions i l);
        currents = λ i l. cur other i ∙ rw e (r.currents i l);
        forces = λ i j l m. kin other i j ∙ rw e (r.forces i j l m);
        taxels = λ i l. tac other i ∙ rw e (r.taxels i l);
      }

  -- The hands below `k` have been served: `shm` is the memory at the start of the round.
  pub record AreServed (inputs : Array ℕ) (shm : ShmMsgs F) (k : ℕ) (s : Buffers × ShmMsgs F)
      : Type 0 where
    pub rest : OnlyMeasures shm s.1
    pub sent : (hand : ℕ) → hand < k → IsSent shm hand s.0.outputs
    pub got : (hand : ℕ) → hand < k → IsReceived inputs s.1 hand

module _ {F : Type 0} ⦃d : Double F⦄ ⦃m : Maths F⦄ where
  keep_measures :
      (inputs : Array ℕ) (hand : ℕ) (shm : ShmMsgs F)
      → IsReceived inputs shm hand
      → (other : ℕ) → IsReceived inputs (update_poses other shm) hand
  unfolding update_poses
  keep_measures inputs hand shm r other = record {
    positions = r.positions;
    currents = r.currents;
    forces = r.forces;
    taxels = r.taxels;
  }

  serve_next :
      (inputs : Array ℕ) (shm : ShmMsgs F) (k : ℕ) (s : Buffers × ShmMsgs F)
      → AreServed inputs shm k s
      → AreServed inputs shm (k + 1) (serve_hand inputs k s)
  unfolding serve_hand
  serve_next inputs shm k s a = record {
    rest = trans-OnlyMeasures shm s.1 (serve_hand inputs k s).1 a.rest (measured_only inputs k s);
    sent = λ hand l. elim (Bool-cases (hand == k)) [
      | inl e ↦
          let same : hand ≡ k = ground arith in
          rw same
            (IsSent-congr shm s.1 k _ _ a.rest (λ _ _ _. refl) (exchange-IsSent inputs k s.0 s.1))
      | inr e ↦
          IsSent-congr shm shm hand s.0.outputs _ refl
            (λ b lo hi. exchange-outside inputs k s.0 s.1 b (ground arith))
            (a.sent hand (ground arith))
    ];
    got = λ hand l. elim (Bool-cases (hand == k)) [
      | inl e ↦
          let same : hand ≡ k = ground arith in
          rw same (keep_measures inputs k _ (received inputs k s.0 s.1) k)
      | inr e ↦
          keep_measures inputs hand _
            (still-IsReceived inputs k hand s.0 s.1 e (a.got hand (ground arith))) k
    ];
  }

  serve_hands-AreServed :
      (n : ℕ) (inputs : Array ℕ) (s : Buffers × ShmMsgs F)
      → AreServed inputs s.1 n (serve_hands n inputs s)
  unfolding serve_hands
  serve_hands-AreServed n inputs s =
      for_range_inv (serve_hand inputs) (λ k t. AreServed inputs s.1 k t) n 0 n s
        (record {
          rest = refl;
          sent = λ hand l. absurd (omega arith);
          got = λ hand l. absurd (omega arith);
        })
        (λ k t a. serve_next inputs s.1 k t a) (omega arith)

  -- While the thread runs, and if the digital output, should there be one, lies behind the hands'
  -- outputs, a round sends to each active hand what the memory held of it before, and leaves in the
  -- memory what each active hand sent; of the memory it changes no other fields than those of the
  -- measured values and the poses.
  pub round_serves :
      (u : Setup) (a : RoundAnswers) (t : Thread F)
      → 0 < t.dorun
      → IsClear u.active_hand_num u.digout
      → let r = round u a t in
        ((hand : ℕ) → hand < u.active_hand_num → IsSent t.shm hand r.buffers.outputs)
        × ((hand : ℕ) → hand < u.active_hand_num → IsReceived a.inputs r.shm hand)
        × OnlyMeasures t.shm r.shm
  unfolding round
  round_serves u a t run clear =
      let s = serve_hands u.active_hand_num a.inputs (t.buffers, t.shm) in
      let served = serve_hands-AreServed u.active_hand_num a.inputs (t.buffers, t.shm) in
      rw (lt→ltb 0 t.dorun run) (
        λ hand l.
            IsSent-congr t.shm t.shm hand s.0.outputs _ refl
              (λ k lo hi.
                write_digout-hand u.active_hand_num u.digout (t.dorun + 1) s.0.outputs k clear
                  (ground arith))
              (served.sent hand l),
        served.got,
        served.rest,
      )
