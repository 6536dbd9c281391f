-- ===== src/Arm/Attach.antt =====
-- src/franka_right_arm.cpp: `ensureShmAttached` and the configuration of `franka_control_thread_R`.
use franka_kistar_r_exp_gwb.Common.{
  ℕ, ◌≡◌, refl, Bool, true, Option, none, some, List, [], ◌∷◌, if◌then◌else◌, Bool-cases, inl, inr,
  ◌⊎◌, ◌∙◌, Option-cases,
}
use franka_kistar_r_exp_gwb.Common.Int.{ℤ, pos, leb_ℤ}
use franka_kistar_r_exp_gwb.Double.{Double}
use franka_kistar_r_exp_gwb.Shm.{ShmMsgs, ArmTrajShm}
use franka_kistar_r_exp_gwb.Shm.Attach.{init_shm, init_arm_traj_shm}
use franka_kistar_r_exp_gwb.Logger.File.{codes}
use franka_kistar_r_exp_gwb.Arm.Limits.{default_speed_factor}

-- `g_shm_msgs` and `g_traj_shm` are null pointers until they are held; with what the segments hold.
pub record Globals (F : Type 0) : Type 0 where
  pub msgs_held : Bool
  pub traj_held : Bool
  pub msgs : ShmMsgs F
  pub traj : ArmTrajShm F

-- What shmget and shmat answer, for both segments.
pub record Answers : Type 0 where
  pub got : Bool
  pub attached : Bool
  pub traj_got : Bool
  pub traj_attached : Bool

pub record FrankaRightArmConfig (F : Type 0) : Type 0 where
  pub robot_ip : List ℕ
  pub speed_factor : F
  pub control_period_us : ℤ
  pub print_interval_us : ℤ

abbrev pub default_control_period_us : ℤ
default_control_period_us = pos 1000

abbrev pub default_print_interval_us : ℕ
default_print_interval_us = 100_000

module _ {F : Type 0} ⦃d : Double F⦄ where
  abbrev hold_msgs : Globals F → Option (ShmMsgs F) → Option (Globals F)
  hold_msgs g none = none
  hold_msgs g (some s) = some (record g { msgs_held = true; msgs = s })

  abbrev hold_traj : Globals F → Option (ArmTrajShm F) → Option (Globals F)
  hold_traj g none = none
  hold_traj g (some s) = some (record g { traj_held = true; traj = s })

  -- Each half of `ensureShmAttached`; `none` is the exit of the process.
  unfoldable pub ensure_msgs : Answers → Globals F → Option (Globals F)
  ensure_msgs a g = if g.msgs_held then some g else hold_msgs g (init_shm a.got a.attached g.msgs)

  unfoldable pub ensure_traj : Answers → Globals F → Option (Globals F)
  ensure_traj a g =
      if g.traj_held
      then some g
      else hold_traj g (init_arm_traj_shm a.traj_got a.traj_attached g.traj)

  abbrev after : Option (Globals F) → (Globals F → Option (Globals F)) → Option (Globals F)
  after none f = none
  after (some g) f = f g

  unfoldable pub ensure_shm_attached : Answers → Globals F → Option (Globals F)
  ensure_shm_attached a g = after (ensure_msgs a g) (ensure_traj a)

  -- The calls of the rounds of the outer loop, one for each connection that is tried.
  unfoldable pub retry : List Answers → Globals F → Option (Globals F)
  retry [] g = some g
  retry (a ∷ as') g = after (ensure_shm_attached a g) (retry as')

  -- The configuration that is used and its period; `none` is a null pointer.
  unfoldable pub control_config : Option (FrankaRightArmConfig F) → FrankaRightArmConfig F × ℤ
  control_config cfg =
      let default' : FrankaRightArmConfig F = record {
        robot_ip = codes "172.16.0.1";
        speed_factor = default_speed_factor;
        control_period_us = default_control_period_us;
        print_interval_us = pos default_print_interval_us;
      } in
      let c : FrankaRightArmConfig F = elim cfg [ none ↦ default' | some c ↦ c ] in
      (
        c,
        if leb_ℤ c.control_period_us (pos 0)
            then default_control_period_us
            else c.control_period_us,
      )

  msgs_step :
      (a : Answers) (g : Globals F)
      → (ensure_msgs a g ≡ none)
        ⊎ ((h : Globals F) × (ensure_msgs a g ≡ some h) × (h.msgs_held ≡ true))
  unfolding ensure_msgs
  msgs_step a g = elim (Bool-cases g.msgs_held) [
    | inl e ↦ inr (g, simp (e), e)
    | inr e ↦ elim (Option-cases (init_shm a.got a.attached g.msgs)) [
      | inl n ↦ inl (simp (e, n))
      | inr (s, q) ↦ inr (record g { msgs_held = true; msgs = s }, simp (e, q), refl)
    ]
  ]

  traj_step :
      (a : Answers) (g : Globals F)
      → (ensure_traj a g ≡ none)
        ⊎ ((h : Globals F) × (ensure_traj a g ≡ some h)
            × (h.traj_held ≡ true)
            × (h.msgs_held ≡ g.msgs_held))
  unfolding ensure_traj
  traj_step a g = elim (Bool-cases g.traj_held) [
    | inl e ↦ inr (g, simp (e), e, refl)
    | inr e ↦ elim (Option-cases (init_arm_traj_shm a.traj_got a.traj_attached g.traj)) [
      | inl n ↦ inl (simp (e, n))
      | inr (s, q) ↦ inr (record g { traj_held = true; traj = s }, simp (e, q), refl, refl)
    ]
  ]

  ensure_step :
      (a : Answers) (g : Globals F)
      → (ensure_shm_attached a g ≡ none)
        ⊎ ((h : Globals F) × (ensure_shm_attached a g ≡ some h)
            × (h.msgs_held ≡ true)
            × (h.traj_held ≡ true))
  unfolding ensure_shm_attached
  ensure_step a g = elim (msgs_step a g) [
    | inl n ↦ inl (rw n refl)
    | inr (h, e, held) ↦ elim (traj_step a h) [
      | inl n ↦ inl (rw (e, n) refl)
      | inr (k, q, traj, same) ↦ inr (k, rw (e, q) refl, same ∙ held, traj)
    ]
  ]

  ensure_idle :
      (a : Answers) (g : Globals F)
      → g.msgs_held ≡ true
      → g.traj_held ≡ true
      → ensure_shm_attached a g ≡ some g
  unfolding ensure_shm_attached ensure_msgs ensure_traj
  ensure_idle a g h k = simp (h, k)

  retry_idle :
      (as' : List Answers) (g : Globals F)
      → g.msgs_held ≡ true
      → g.traj_held ≡ true
      → retry as' g ≡ some g
  unfolding retry
  retry_idle [] g h k = refl
  retry_idle (a ∷ as') g h k = rw (ensure_idle a g h k) (retry_idle as' g h k)

  -- However often the arm's thread tries to connect, and whatever the kernel answers later, it
  -- attaches to each segment once: all calls but the first leave the memory and its counters alone.
  retry-ensure_shm_attached :
      (a : Answers) (as' : List Answers) (g : Globals F)
      → retry (a ∷ as') g ≡ ensure_shm_attached a g
  unfolding retry
  retry-ensure_shm_attached a as' g = elim (ensure_step a g) [
    | inl n ↦ rw n refl
    | inr (h, e, x, y) ↦ rw e (retry_idle as' h x y)
  ]
