-- ===== src/Arm/Plan.antt =====
-- src/franka_right_arm.cpp, the first half of `executeTrajFromShm`: the trajectory is copied from
-- the shared buffer and checked. The lock that the code takes keeps the threads of this process
-- out; what other processes write during the copy is in Arm/Plan/Race.
use franka_kistar_r_exp_gwb.Common.{
  ℕ, zero, suc, ◌+◌, ◌-◌, ◌≤◌, ◌<◌, ◌≡◌, Bool, true, false, not, ◌&&◌, ◌||◌, Option, none, some,
  Array, update, copy, ◌==◌, if◌then◌else◌,
}
use franka_kistar_r_exp_gwb.Common.Int.{ℤ, pos, pos_part, leb_ℤ, ltb_ℤ}
use franka_kistar_r_exp_gwb.Double.{Double, ◌≼◌, ◌≺◌, IsFinite, nought}
use franka_kistar_r_exp_gwb.Shm.{ArmTrajBuf, arm_dof, arm_traj_max_pts}
use franka_kistar_r_exp_gwb.Arm.Limits.{validate_waypoint, IsWithinLimits}
mod Copy
pub mod Check
pub mod Race

-- The local copy: `waypoints` and `times` are vectors of `len` entries.
pub record Plan (F : Type 0) : Type 0 where
  pub len : ℕ
  pub waypoints : Array (Array F)
  pub times : Array F

module _ {F : Type 0} ⦃d : Double F⦄ where
  unfoldable pub time_is_bad : Array F → ℕ → Bool
  time_is_bad times i =
      not (d.is_finite (times i))
      || d.lt (times i) nought
      || (not (i == 0) && d.le (times i) (times (i - 1)))

  -- One round of the copying loop, from the buffer's `q` and `t`; `none` is the early return.
  unfoldable pub load_entry :
      Array (Array F) → Array F → ℕ → Array (Array F) → Array F → Option (Array (Array F) × Array F)
  load_entry q t i waypoints times =
      let ws = update waypoints i (copy arm_dof (q i) (waypoints i)) in
      let ts = update times i (t i) in
      if not (validate_waypoint (ws i))
      then none
      else if time_is_bad ts i
      then none
      else some (ws, ts)

  unfoldable pub load_from :
      ℕ
      → Array (Array F)
      → Array F
      → ℕ
      → Array (Array F)
      → Array F
      → Option (Array (Array F) × Array F)
  load_from zero q t i waypoints times = some (waypoints, times)
  load_from (suc n) q t i waypoints times = elim (load_entry q t i waypoints times) [
    | none ↦ none
    | some (ws, ts) ↦ load_from n q t (i + 1) ws ts
  ]

  unfoldable pub plan_of : ℕ → Option (Array (Array F) × Array F) → Option (Plan F)
  plan_of n none = none
  plan_of n (some (w, t)) = some (record { len = n; waypoints = w; times = t })

  unfoldable pub load : ArmTrajBuf F → Option (Plan F)
  load buf =
      if leb_ℤ buf.len (pos 0) || ltb_ℤ (pos arm_traj_max_pts) buf.len
      then none
      else (let n = pos_part buf.len in
          plan_of n (load_from n buf.q buf.t 0 (λ _ _. nought) (λ _. nought)))

  -- The trajectory at index `i` is one that the arm may follow: a pose within the limits at a
  -- finite time that is not negative and later than the time before it.
  pub record IsEntry (q : Array (Array F)) (t : Array F) (i : ℕ) : Type 0 where
    pub pose : IsWithinLimits (q i)
    pub finite : IsFinite (t i)
    pub from_start : nought ≼ t i
    pub later : 0 < i → t (i - 1) ≺ t i

  -- What the interpolation relies on.
  pub record IsSound (p : Plan F) : Type 0 where
    pub nonempty : 0 < p.len
    pub capped : p.len ≤ arm_traj_max_pts
    pub entries : (i : ℕ) → i < p.len → IsEntry p.waypoints p.times i

  -- The plan holds the waypoints and times of the buffer.
  pub record IsCopy (buf : ArmTrajBuf F) (p : Plan F) : Type 0 where
    pub count : buf.len ≡ pos p.len
    pub joints : (i j : ℕ) → i < p.len → j < arm_dof → p.waypoints i j ≡ buf.q i j
    pub stamps : (i : ℕ) → i < p.len → p.times i ≡ buf.t i
