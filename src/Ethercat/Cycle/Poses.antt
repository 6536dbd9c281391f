-- ===== src/Ethercat/Cycle/Poses.antt =====
-- The poses that a round of `ecatthread` (src/Ethercat_setting.cpp) leaves.
use franka_kistar_r_exp_gwb.Common.{
  ℕ, zero, suc, ◌+◌, ◌<◌, ◌≡◌, refl, ap, ◌∙◌, inl, inr, false, List, [], ◌∷◌, Array, arith,
  for_range_inv, lt→ltb, length, ◌==◌, ==_refl, Bool-cases,
}
use franka_kistar_r_exp_gwb.Common.Int.{ℤ}
use franka_kistar_r_exp_gwb.Double.{Double, nought}
use franka_kistar_r_exp_gwb.Shm.{ShmMsgs}
use franka_kistar_r_exp_gwb.Kinematics.Transform.{Maths}
use franka_kistar_r_exp_gwb.Kinematics.Hand.{Pose, compute_hand_fk_from_joint_pos}
use franka_kistar_r_exp_gwb.Ethercat.Pdo.{Buffers, read_rx, exchange}
use franka_kistar_r_exp_gwb.Ethercat.Cycle.{
  Setup, RoundAnswers, Thread, poses, update_poses, serve_hand, serve_hands, round, rounds,
}

module _ {F : Type 0} where
  -- `new` is `old` but for the measured values and the poses.
  abbrev pub OnlyMeasures : ShmMsgs F → ShmMsgs F → Type 0
  OnlyMeasures old new = new ≡ record old {
    j_pos = new.j_pos;
    j_cur = new.j_cur;
    j_kin = new.j_kin;
    j_tac = new.j_tac;
    tip_pos = new.tip_pos;
    tip_quat = new.tip_quat;
  }

  pub trans-OnlyMeasures :
      (a b c : ShmMsgs F) → OnlyMeasures a b → OnlyMeasures b c → OnlyMeasures a c
  trans-OnlyMeasures a b c h k =
      k
      ∙ ap
          (λ (x : ShmMsgs F). (record x {
            j_pos = c.j_pos;
            j_cur = c.j_cur;
            j_kin = c.j_kin;
            j_tac = c.j_tac;
            tip_pos = c.tip_pos;
            tip_quat = c.tip_quat;
          }))
          h

module _ {F : Type 0} ⦃d : Double F⦄ ⦃m : Maths F⦄ where
  abbrev pub no_poses : Array (Pose F)
  no_poses k = record { pos = λ _. nought; quat = λ _. nought }

  -- The memory's poses of a hand belong to its joint positions.
  abbrev pub IsCurrent : ShmMsgs F → ℕ → Type 0
  IsCurrent shm hand =
      (finger : ℕ)
      → finger < 4
      → (poses hand shm finger) ≡ compute_hand_fk_from_joint_pos (shm.j_pos hand) no_poses finger

  whatever_was :
      (joint_pos : Array ℤ) (old : Array (Pose F)) (finger : ℕ)
      → finger < 4
      → compute_hand_fk_from_joint_pos joint_pos old finger
        ≡ compute_hand_fk_from_joint_pos joint_pos no_poses finger
  unfolding compute_hand_fk_from_joint_pos
  whatever_was joint_pos old zero l = refl
  whatever_was joint_pos old (suc zero) l = refl
  whatever_was joint_pos old (suc (suc zero)) l = refl
  whatever_was joint_pos old (suc (suc (suc zero))) l = refl
  whatever_was joint_pos old (suc (suc (suc (suc k)))) l = absurd (omega arith)

  served :
      (inputs : Array ℕ) (hand : ℕ) (s : Buffers × ShmMsgs F)
      → IsCurrent (serve_hand inputs hand s).1 hand
  unfolding serve_hand update_poses
  served inputs hand s finger l = rw (==_refl hand) (whatever_was _ _ finger l)

  others_stay :
      (inputs : Array ℕ) (hand other : ℕ) (s : Buffers × ShmMsgs F)
      → (other == hand) ≡ false
      → IsCurrent s.1 other
      → IsCurrent (serve_hand inputs hand s).1 other
  unfolding serve_hand update_poses exchange read_rx
  others_stay inputs hand other s e h finger l = rw e (h finger l)

  serve_hands-IsCurrent :
      (n : ℕ) (inputs : Array ℕ) (s : Buffers × ShmMsgs F) (hand : ℕ)
      → hand < n
      → IsCurrent (serve_hands n inputs s).1 hand
  unfolding serve_hands
  serve_hands-IsCurrent n inputs s =
      for_range_inv (serve_hand inputs) (λ k t. (hand : ℕ) → hand < k → IsCurrent t.1 hand) n 0 n s
        (λ hand l. absurd (omega arith))
        (λ k t h hand l. elim (Bool-cases (hand == k)) [
          | inl e ↦ (let same : hand ≡ k = ground arith in rw same (served inputs k t))
          | inr e ↦ others_stay inputs k hand t e (h hand (ground arith))
        ])
        (omega arith)

  pub measured_only :
      (inputs : Array ℕ) (hand : ℕ) (s : Buffers × ShmMsgs F)
      → OnlyMeasures s.1 (serve_hand inputs hand s).1
  unfolding serve_hand update_poses exchange read_rx
  measured_only inputs hand s = refl

  pub serve_hands-OnlyMeasures :
      (n : ℕ) (inputs : Array ℕ) (s : Buffers × ShmMsgs F)
      → OnlyMeasures s.1 (serve_hands n inputs s).1
  unfolding serve_hands
  serve_hands-OnlyMeasures n inputs s =
      for_range_inv (serve_hand inputs) (λ k t. OnlyMeasures s.1 t.1) n 0 n s refl
        (λ k t h. trans-OnlyMeasures s.1 t.1 (serve_hand inputs k t).1 h (measured_only inputs k t))
        (omega arith)

  pub round_runs :
      (u : Setup) (a : RoundAnswers) (t : Thread F)
      → 0 < t.dorun
      → ((hand : ℕ) → hand < u.active_hand_num → IsCurrent (round u a t).shm hand)
        × OnlyMeasures t.shm (round u a t).shm
        × ((round u a t).dorun ≡ t.dorun + 1)
  unfolding round
  round_runs u a t h = rw (lt→ltb 0 t.dorun h) (
    serve_hands-IsCurrent u.active_hand_num a.inputs (t.buffers, t.shm),
    serve_hands-OnlyMeasures u.active_hand_num a.inputs (t.buffers, t.shm),
    refl,
  )

  pub round_waits :
      (u : Setup) (a : RoundAnswers) (t : Thread F)
      → t.dorun ≡ 0
      → ((round u a t).shm ≡ t.shm)
        × ((round u a t).buffers ≡ t.buffers)
        × ((round u a t).dorun ≡ 0)
  unfolding round
  round_waits u a t h = simp (h) (refl, refl, refl)

  -- While the thread runs, at least one round long, the poses of every active hand are those of the
  -- joint positions read in the same round, and nothing but the measured values and the poses has
  -- changed.
  pub rounds-IsCurrent :
      (u : Setup) (a : RoundAnswers) (as' : List RoundAnswers) (t : Thread F)
      → 0 < t.dorun
      → let r = rounds u (a ∷ as') t in
        ((hand : ℕ) → hand < u.active_hand_num → IsCurrent r.shm hand)
        × OnlyMeasures t.shm r.shm
        × (r.dorun ≡ t.dorun + 1 + length as')
  unfolding rounds
  rounds-IsCurrent u a [] t h = let (x, y, z) = round_runs u a t h in (x, y, omega arith)
  rounds-IsCurrent u a (b ∷ bs) t h =
      let (x, y, z) = round_runs u a t h in
      let s = round u a t in
      let (i, j, k) = rounds-IsCurrent u b bs s (omega arith) in
      (i, trans-OnlyMeasures t.shm s.shm (rounds u (b ∷ bs) s).shm y j, omega arith)

  -- Before `ethercat_run` sets `dorun`, the rounds leave memory and buffers alone and stay in wait.
  pub rounds_wait :
      (u : Setup) (as' : List RoundAnswers) (t : Thread F)
      → t.dorun ≡ 0
      → let r = rounds u as' t in (r.shm ≡ t.shm) × (r.buffers ≡ t.buffers) × (r.dorun ≡ 0)
  unfolding rounds
  rounds_wait u [] t h = (refl, refl, h)
  rounds_wait u (a ∷ as') t h =
      let (x, y, z) = round_waits u a t h in
      let (i, j, k) = rounds_wait u as' (round u a t) z in (i ∙ x, j ∙ y, k)
