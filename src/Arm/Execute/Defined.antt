-- ===== src/Arm/Execute/Defined.antt =====
-- The vectors of `executeTrajFromShm` (src/franka_right_arm.cpp) for two waypoints or more.
use franka_kistar_r_exp_gwb.Common.{
  ℕ, ◌+◌, ◌-◌, ◌≤◌, ◌<◌, ◌≡◌, ◌≢◌, inl, inr, refl, ap, ◌∙◌, true, false, none, List, [], ◌∷◌, arith,
  ltb, lt→ltb, Option-cases, find_first, find_first-some,
}
use franka_kistar_r_exp_gwb.Common.Int.{pos}
use franka_kistar_r_exp_gwb.Double.{Double, IsIeee, nought}
use franka_kistar_r_exp_gwb.Shm.{ArmTrajShm, arm_traj_executing}
use franka_kistar_r_exp_gwb.Arm.Robot.{right_arm_index}
use franka_kistar_r_exp_gwb.Arm.Plan.{Plan}
use franka_kistar_r_exp_gwb.Arm.Plan.Race.{load_racing, load_racing_sound}
use franka_kistar_r_exp_gwb.Arm.Motion.{segment, is_segment, desired, command}
use franka_kistar_r_exp_gwb.Arm.Execute.{
  Tick, other, tick, Copying, World, Motion, End, finished, thrown, undefined, Outcome, returned,
  raised, broken, set_state, copied_from, on_tick, send, interfere, run_control, conclude, follow,
  execute_traj_from_shm,
}

module _ {F : Type 0} ⦃d : Double F⦄ where
  -- The buffer does not hold a single waypoint.
  abbrev pub IsNotSingle : ArmTrajShm F → Type 0
  IsNotSingle s = (s.arm_traj right_arm_index).len ≢ pos 1

  abbrev pub Keeps : (ArmTrajShm F → ArmTrajShm F) → Type 0
  Keeps g = (s : ArmTrajShm F) → IsNotSingle s → IsNotSingle (g s)

  abbrev pub CourseKeeps : List (Tick F) → Type 0
  CourseKeeps [] = Unit
  CourseKeeps (other f g ∷ ts) = Keeps g × CourseKeeps ts
  CourseKeeps (tick state period ∷ ts) = CourseKeeps ts

  segment-lt : (p : Plan F) (elapsed : F) → 2 ≤ p.len → segment p elapsed + 1 < p.len
  unfolding segment
  segment-lt p elapsed two = elim (Option-cases (find_first (p.len - 1) 0 (is_segment p elapsed))) [
    | inl e ↦ rw (e, segment) (omega arith)
    | inr (i, e) ↦
        let (_, below, _) = find_first-some (p.len - 1) 0 (is_segment p elapsed) {k = i} e in
        rw (e, segment) (omega arith)
  ]

  command_some : (p : Plan F) (elapsed : F) → 2 ≤ p.len → command p elapsed ≢ none
  unfolding command desired
  command_some p elapsed two =
      let later = segment-lt p elapsed two in
      let end : ltb (p.len - 1) p.len ≡ true = lt→ltb (p.len - 1) p.len (omega arith) in
      let upper : ltb (segment p elapsed + 1) p.len ≡ true =
        lt→ltb (segment p elapsed + 1) p.len later in
      let lower : ltb (segment p elapsed) p.len ≡ true =
        lt→ltb (segment p elapsed) p.len (omega arith) in
      ground (arith, end, upper, lower)

  run_control-defined :
      (p : Plan F) (ts : List (Tick F)) (m : Motion F)
      → 2 ≤ p.len
      → CourseKeeps ts
      → IsNotSingle m.world.traj
      → let r = run_control p ts m in (r.0 ≢ undefined) × IsNotSingle r.1.world.traj
  unfolding run_control on_tick send interfere
  run_control-defined p [] m two k h = (λ e. cc, h)
  run_control-defined p (other f g ∷ ts) m two (k, ks) h =
      run_control-defined p ts (interfere f g m) two ks (k m.world.traj h)
  run_control-defined p (tick state period ∷ ts) m two k h =
      let n = on_tick state period m in
      elim (Option-cases (command p n.elapsed)) [
        | inl e ↦ absurd (command_some p n.elapsed two e)
        | inr ((q, true), e) ↦ rw (e, run_control) (λ x. cc, h)
        | inr ((q, false), e) ↦ rw (e, run_control) (run_control-defined p ts (send q n) two k h)
      ]

  -- No undefined behaviour, and the buffer behind it does not hold a single waypoint.
  abbrev pub IsDefined : Outcome F → Type 0
  IsDefined (returned last sent w) = IsNotSingle w.traj
  IsDefined (raised sent w) = IsNotSingle w.traj
  IsDefined broken = ⊥

  conclude-IsDefined :
      (p : Plan F) (r : End × Motion F)
      → r.0 ≢ undefined
      → IsNotSingle r.1.world.traj
      → IsDefined (conclude p r)
  unfolding conclude
  conclude-IsDefined p (finished, m) h s = s
  conclude-IsDefined p (thrown, m) h s = s
  conclude-IsDefined p (undefined, m) h s = absurd (h refl)

  pub execute_traj_from_shm-IsDefined :
      (laws : IsIeee F) (c : Copying F) (ts : List (Tick F)) (w : World F)
      → ((k : ℕ) → Keeps (c.during k))
      → Keeps c.past
      → CourseKeeps ts
      → IsNotSingle w.traj
      → IsDefined (execute_traj_from_shm c ts w)
  unfolding execute_traj_from_shm follow
  execute_traj_from_shm-IsDefined laws c ts w during past course h =
      let v = set_state arm_traj_executing w in
      elim (Option-cases (load_racing (copied_from c w))) [
        | inl e ↦ rw (e, follow) (past v.traj h)
        | inr (p, e) ↦
            let (sound, count, _, _) = load_racing_sound laws (copied_from c w) p e in
            let more : p.len ≢ 1 = λ one. during 0 v.traj h (count ∙ ap (λ n. pos n) one) in
            let (fine, kept) =
              run_control-defined p ts
                (record { world = record v { traj = c.past v.traj }; elapsed = nought; sent = [] })
                (ground (arith, sound.nonempty, more)) course (past v.traj h) in
            rw (e, follow) (conclude-IsDefined p _ fine kept)
      ]
