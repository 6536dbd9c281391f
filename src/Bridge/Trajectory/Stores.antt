-- ===== src/Bridge/Trajectory/Stores.antt =====
-- `on_franka_trajectory` (ros2/kistar_hand_bridge/src/kistar_hand_bridge_node.cpp) as the sequence
-- of its stores into the buffer, in program order, since the arm's process may read between two of
-- them.
use franka_kistar_r_exp_gwb.Common.{
  ℕ, zero, suc, ◌+◌, ◌≤◌, ◌<◌, ◌≡◌, ◌⊎◌, inl, inr, refl, ap, ap₂, ◌∙◌, fun_ext, Bool-cases, ◌&&◌,
  List, [], ◌∷◌, ◌++◌, Array, arith, update, copy, copy_lem, for_range, for_range_inv, sym,
  tabulate, length, ◌==◌, ltb, if◌then◌else◌,
}
use franka_kistar_r_exp_gwb.Common.Int.{ℤ, pos}
use franka_kistar_r_exp_gwb.Double.{Double}
use franka_kistar_r_exp_gwb.Shm.{ArmTrajBuf, arm_dof, arm_traj_pending}
use franka_kistar_r_exp_gwb.Bridge.Trajectory.{
  JointTrajectory, joint_value, time_value, write_point, write_trajectory,
}

pub data Store (F : Type 0) : Type 0 where
  set_len : ℤ → Store F
  set_q : ℕ → ℕ → F → Store F
  set_t : ℕ → F → Store F
  set_status : ℕ → Store F

abbrev pub take {ℓ} : {A : Type ℓ} → ℕ → List A → List A
take zero xs = []
take (suc n) [] = []
take (suc n) (x ∷ xs) = x ∷ take n xs

module _ {F : Type 0} ⦃d : Double F⦄ where
  unfoldable pub perform : Store F → ArmTrajBuf F → ArmTrajBuf F
  perform (set_len n) buf = record buf { len = n }
  perform (set_q i j v) buf = record buf { q = update buf.q i (update (buf.q i) j v) }
  perform (set_t i v) buf = record buf { t = update buf.t i v }
  perform (set_status s) buf = record buf { state = s }

  unfoldable pub perform_all : List (Store F) → ArmTrajBuf F → ArmTrajBuf F
  perform_all [] buf = buf
  perform_all (s ∷ ss) buf = perform_all ss (perform s buf)

  -- A round of the loop over the points: the seven joints, then the time.
  unfoldable pub point_stores : JointTrajectory F → ℕ → List (Store F)
  point_stores msg i =
      tabulate arm_dof (λ j. set_q i j (joint_value msg i j)) ++ set_t i (time_value msg i) ∷ []

  unfoldable pub points_stores : JointTrajectory F → ℕ → ℕ → List (Store F)
  points_stores msg zero i = []
  points_stores msg (suc n) i = point_stores msg i ++ points_stores msg n (i + 1)

  -- All that the handler stores for a message that it takes.
  unfoldable pub stores : JointTrajectory F → List (Store F)
  stores msg =
      let n = length msg.points in
      set_len (pos n) ∷ (points_stores msg n 0 ++ set_status arm_traj_pending ∷ [])

  perform_all-append :
      (xs ys : List (Store F)) (buf : ArmTrajBuf F)
      → perform_all (xs ++ ys) buf ≡ perform_all ys (perform_all xs buf)
  unfolding perform_all
  perform_all-append [] ys buf = refl
  perform_all-append (x ∷ xs) ys buf = perform_all-append xs ys (perform x buf)

  -- Seven stores into a row are one store of the whole row.
  row_stores :
      (q : Array (Array F)) (i : ℕ) (v : Array F)
      → for_range arm_dof 0 (λ j r. update r i (update (r i) j (v j))) q
        ≡ update q i (copy arm_dof v (q i))
  row_stores q i v = fun_ext (λ k. fun_ext (λ l.
      for_range_inv (λ j r. update r i (update (r i) j (v j)))
        (λ j r. r k l ≡ (if k == i then if ltb l j then v l else q i l else q k l)) arm_dof 0
        arm_dof q (before k l) (λ j r h. ground (arith, h)) (omega arith)
      ∙ after k l))
    where
      before : (k l : ℕ) → q k l ≡ (if k == i then if ltb l 0 then v l else q i l else q k l)
      before k l = ground arith

      after :
          (k l : ℕ)
          → (if k == i then if ltb l arm_dof then v l else q i l else q k l)
            ≡ update q i (copy arm_dof v (q i)) k l
      after k l = elim (Bool-cases (k == i)) [
        | inl e ↦ rw e (sym (copy_lem arm_dof v (q i) l))
        | inr e ↦ rw e refl
      ]

  perform_all-point :
      (msg : JointTrajectory F) (i : ℕ) (buf : ArmTrajBuf F)
      → perform_all (point_stores msg i) buf ≡ write_point msg i buf
  unfolding point_stores perform_all perform write_point for_range
  perform_all-point msg i buf =
      ap (λ (q : Array (Array F)). (record buf { q = q; t = update buf.t i (time_value msg i) }))
        (row_stores buf.q i (joint_value msg i))

  perform_all-points :
      (msg : JointTrajectory F) (n i : ℕ) (buf : ArmTrajBuf F)
      → perform_all (points_stores msg n i) buf ≡ for_range n i (write_point msg) buf
  unfolding points_stores perform_all for_range
  perform_all-points msg zero i buf = refl
  perform_all-points msg (suc n) i buf =
      perform_all-append (point_stores msg i) (points_stores msg n (i + 1)) buf
      ∙ ap (perform_all (points_stores msg n (i + 1))) (perform_all-point msg i buf)
      ∙ perform_all-points msg n (i + 1) (write_point msg i buf)

  -- The stores, one after the other, are what the handler does to the buffer.
  pub perform_all-stores :
      (msg : JointTrajectory F) (buf : ArmTrajBuf F)
      → perform_all (stores msg) buf ≡ write_trajectory msg buf
  unfolding stores perform_all perform write_trajectory
  perform_all-stores msg buf =
      let n = length msg.points in
      let opened : ArmTrajBuf F = record buf { len = pos n } in
      perform_all-append (points_stores msg n 0) (set_status arm_traj_pending ∷ []) opened
      ∙ ap (λ (b : ArmTrajBuf F). (record b { state = arm_traj_pending }))
          (perform_all-points msg n 0 opened)

  -- The store is one of those of the message.
  abbrev IsOf : JointTrajectory F → Store F → Type 0
  IsOf msg (set_len n) = n ≡ pos (length msg.points)
  IsOf msg (set_q i j v) = (i < length msg.points) × (v ≡ joint_value msg i j)
  IsOf msg (set_t i v) = (i < length msg.points) × (v ≡ time_value msg i)
  IsOf msg (set_status s) = Unit

  abbrev AllOf : JointTrajectory F → List (Store F) → Type 0
  AllOf msg [] = Unit
  AllOf msg (s ∷ ss) = IsOf msg s × AllOf msg ss

  -- Each cell of `b` is the one of `old` or the one of the message.
  pub record IsMixed (msg : JointTrajectory F) (old b : ArmTrajBuf F) : Type 0 where
    pub count : (b.len ≡ old.len) ⊎ (b.len ≡ pos (length msg.points))
    pub joints :
        (i j : ℕ)
        → (b.q i j ≡ old.q i j) ⊎ ((i < length msg.points) × (b.q i j ≡ joint_value msg i j))
    pub stamps :
        (i : ℕ) → (b.t i ≡ old.t i) ⊎ ((i < length msg.points) × (b.t i ≡ time_value msg i))

  AllOf-append :
      (msg : JointTrajectory F) (xs ys : List (Store F))
      → AllOf msg xs
      → AllOf msg ys
      → AllOf msg (xs ++ ys)
  AllOf-append msg [] ys a b = b
  AllOf-append msg (x ∷ xs) ys (h, a) b = (h, AllOf-append msg xs ys a b)

  AllOf-points :
      (msg : JointTrajectory F) (n i : ℕ)
      → i + n ≤ length msg.points
      → AllOf msg (points_stores msg n i)
  unfolding points_stores point_stores
  AllOf-points msg zero i l = tt
  AllOf-points msg (suc n) i l =
      let here : i < length msg.points = omega arith in
      AllOf-append msg (point_stores msg i) (points_stores msg n (i + 1))
        (
          (here, refl),
          (
            (here, refl),
            (
              (here, refl),
              ((here, refl), ((here, refl), ((here, refl), ((here, refl), ((here, refl), tt))))),
            ),
          ),
        )
        (AllOf-points msg n (i + 1) (omega arith))

  AllOf-stores : (msg : JointTrajectory F) → AllOf msg (stores msg)
  unfolding stores
  AllOf-stores msg = (
    refl,
    AllOf-append msg (points_stores msg (length msg.points) 0) _
        (AllOf-points msg (length msg.points) 0 (omega arith)) (tt, tt),
  )

  AllOf-take :
      (msg : JointTrajectory F) (n : ℕ) (xs : List (Store F)) → AllOf msg xs → AllOf msg (take n xs)
  AllOf-take msg zero xs a = tt
  AllOf-take msg (suc n) [] a = tt
  AllOf-take msg (suc n) (x ∷ xs) (h, a) = (h, AllOf-take msg n xs a)

  stored_cell :
      (q : Array (Array F)) (i j : ℕ) (v : F) (k l : ℕ)
      → update q i (update (q i) j v) k l ≡ (if k == i && l == j then v else q k l)
  stored_cell q i j v k l = ground arith

  perform-IsMixed :
      (msg : JointTrajectory F) (s : Store F) (old b : ArmTrajBuf F)
      → IsOf msg s
      → IsMixed msg old b
      → IsMixed msg old (perform s b)
  unfolding perform
  perform-IsMixed msg (set_len n) old b h m = record {
    count = inr h;
    joints = m.joints;
    stamps = m.stamps;
  }
  perform-IsMixed msg (set_q i j v) old b h m = record {
    count = m.count;
    joints = λ k l. elim (Bool-cases (k == i && l == j)) [
      | inl e ↦
          let row : k ≡ i = ground arith in
          let col : l ≡ j = ground arith in
          inr (
            rw row h.0,
            stored_cell b.q i j v k l ∙ rw e (h.1 ∙ ap₂ (joint_value msg) (sym row) (sym col)),
          )
      | inr e ↦ rw (stored_cell b.q i j v k l, e) (m.joints k l)
    ];
    stamps = m.stamps;
  }
  perform-IsMixed msg (set_t i v) old b h m = record {
    count = m.count;
    joints = m.joints;
    stamps = λ k. elim (Bool-cases (k == i)) [
      | inl e ↦ inr (ground arith, ground arith)
      | inr e ↦ rw e (m.stamps k)
    ];
  }
  perform-IsMixed msg (set_status s) old b h m = record {
    count = m.count;
    joints = m.joints;
    stamps = m.stamps;
  }

  perform_all-IsMixed :
      (msg : JointTrajectory F) (xs : List (Store F)) (old b : ArmTrajBuf F)
      → AllOf msg xs
      → IsMixed msg old b
      → IsMixed msg old (perform_all xs b)
  unfolding perform_all
  perform_all-IsMixed msg [] old b a m = m
  perform_all-IsMixed msg (x ∷ xs) old b (h, a) m =
      perform_all-IsMixed msg xs old (perform x b) a (perform-IsMixed msg x old b h m)

  -- After the first `n` stores every cell is that of the old buffer or that of the message.
  pub partly_written-IsMixed :
      (msg : JointTrajectory F) (old : ArmTrajBuf F) (n : ℕ)
      → IsMixed msg old (perform_all (take n (stores msg)) old)
  partly_written-IsMixed msg old n =
      perform_all-IsMixed msg (take n (stores msg)) old old
        (AllOf-take msg n (stores msg) (AllOf-stores msg))
        (record { count = inl refl; joints = λ i j. inl refl; stamps = λ i. inl refl })
