-- ===== src/Arm/Motion.antt =====
-- src/franka_right_arm.cpp: the set point of the control callback in `executeTrajFromShm`, that is
-- the search for the segment and the interpolation. `none` is undefined behaviour: an index past
-- the end of a `std::vector`.
use franka_kistar_r_exp_gwb.Common.{
  ℕ, ◌+◌, ◌-◌, Bool, true, false, ◌&&◌, Option, none, some, Array, copy, ltb, find_first,
  if◌then◌else◌,
}
use franka_kistar_r_exp_gwb.Common.Int.{pos}
use franka_kistar_r_exp_gwb.Double.{Double, nought}
use franka_kistar_r_exp_gwb.Shm.{arm_dof}
use franka_kistar_r_exp_gwb.Arm.Plan.{Plan}
pub mod Segment
pub mod Between
pub mod Command

infixl 5 ◌>>=◌
abbrev pub ◌>>=◌ : {A B : Type 0} → Option A → (A → Option B) → Option B
none >>= f = none
some a >>= f = f a

-- v[i] for a vector of n elements
abbrev pub at : {A : Type 0} → ℕ → Array A → ℕ → Option A
at n v i = if ltb i n then some (v i) else none

module _ {F : Type 0} ⦃d : Double F⦄ where
  unfoldable pub lerp7 : Array F → Array F → F → Array F
  lerp7 a b alpha = copy arm_dof (λ i. d.add (a i) (d.mul alpha (d.sub (b i) (a i)))) (λ _. nought)

  abbrev pub total_dur : Plan F → F
  total_dur p = p.times (p.len - 1)

  abbrev pub is_segment : Plan F → F → ℕ → Bool
  is_segment p elapsed i = d.le (p.times i) elapsed && d.lt elapsed (p.times (i + 1))

  -- The search leaves `seg` at 0 if no segment holds the time.
  unfoldable pub segment : Plan F → F → ℕ
  segment p elapsed = elim (find_first (p.len - 1) 0 (is_segment p elapsed)) [
    | none ↦ 0
    | some i ↦ i
  ]

  -- The fraction of the segment from `t0` to `t1` that has passed.
  unfoldable pub fraction : F → F → F → F
  fraction elapsed t0 t1 =
      let dt = d.sub t1 t0 in
      if d.lt (d.of_nano (pos 1)) dt then d.div (d.sub elapsed t0) dt else nought

  unfoldable pub desired : Plan F → F → Option (Array F)
  desired p elapsed = if d.le (total_dur p) elapsed then at p.len p.waypoints (p.len - 1) else (do
    let seg = segment p elapsed
    t1 ← at p.len p.times (seg + 1)
    t0 ← at p.len p.times seg
    a ← at p.len p.waypoints seg
    b ← at p.len p.waypoints (seg + 1)
    some (lerp7 a b (fraction elapsed t0 t1)))

  -- The set point, and whether the callback returns it by `franka::MotionFinished`.
  unfoldable pub command : Plan F → F → Option (Array F × Bool)
  command p elapsed = do
    q_des ← desired p elapsed
    if d.le (d.add (total_dur p) (d.of_nano (pos 50_000_000))) elapsed
        then (at p.len p.waypoints (p.len - 1) >>= λ last. some (last, true))
        else some (q_des, false)
