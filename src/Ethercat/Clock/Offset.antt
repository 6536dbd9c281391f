-- ===== src/Ethercat/Clock/Offset.antt =====
-- `ec_sync` of src/Ethercat_setting.cpp keeps the cycle going.
use franka_kistar_r_exp_gwb.Common.{ℕ, ◌+◌, ◌*◌, ◌/◌, ◌≤◌, ◌<◌, arith}
use franka_kistar_r_exp_gwb.Common.Int.{
  ℤ, pos, negsuc, pos_part, neg_part, ◌+ℤ◌, ◌-ℤ◌, ◌≤ℤ◌, ◌<ℤ◌, quot, rem, +ℤ_parts, -ℤ_parts,
}
use franka_kistar_r_exp_gwb.Ethercat.Clock.{SyncState, sync_delta, sync_integral, ec_sync}

rem_range : (z : ℤ) (c : ℕ) → 0 < c → (pos_part (rem z c) < c) × (neg_part (rem z c) < c)
unfolding rem
rem_range (pos n) c p = ground arith
rem_range (negsuc n) c p = ground arith

sync_delta_range :
    (reftime : ℤ) (c : ℕ)
    → 0 < c
    → (pos_part (sync_delta reftime c) ≤ c / 2) × (neg_part (sync_delta reftime c) < c)
unfolding sync_delta
sync_delta_range reftime c p =
    let d = rem (reftime -ℤ pos 50_000) c in
    let half : c / 2 ≤ c = omega arith in
    ground (arith, rem_range (reftime -ℤ pos 50_000) c p, -ℤ_parts d (pos c), half)

quot_small : (z : ℤ) (b m : ℕ) → 0 < b → pos_part z ≤ m → pos_part (quot z b) ≤ m / b
unfolding quot
quot_small (pos n) b m p h = grind arith
quot_small (negsuc n) b m p h = grind arith

sync_integral_range :
    (delta integral : ℤ) → pos_part (sync_integral delta integral) ≤ pos_part integral + 1
unfolding sync_integral
sync_integral_range delta integral =
    ground (arith, +ℤ_parts integral (pos 1), -ℤ_parts integral (pos 1))

pos_part-le : (z : ℤ) (m : ℕ) → z ≤ℤ pos m → pos_part z ≤ m
pos_part-le (pos n) m h = omega arith
pos_part-le (negsuc n) m h = omega arith

-- As long as the integral is at most ten times the cycle, the next step `cycletime + toff` goes
-- forward, and the measured offset lies between minus a cycle and half a cycle.
pub ec_sync_lem :
    (reftime : ℤ) (cycletime : ℕ) (s : SyncState)
    → 1000 ≤ cycletime
    → s.integral ≤ℤ pos (10 * cycletime)
    → let r = ec_sync reftime cycletime s in
      (pos 0 <ℤ pos cycletime +ℤ r.toff)
      × (r.gl_delta ≤ℤ pos (cycletime / 2))
      × (pos 0 <ℤ pos cycletime +ℤ r.gl_delta)
unfolding ec_sync
ec_sync_lem reftime c s h i =
    let delta = sync_delta reftime c in
    let integral = sync_integral delta s.integral in
    let (hi, lo) = sync_delta_range reftime c (omega arith) in
    let p = quot_small delta 100 (c / 2) (omega arith) hi in
    let q =
      quot_small integral 20 (10 * c + 1) (omega arith)
        (omega (arith, sync_integral_range delta s.integral, pos_part-le s.integral (10 * c) i)) in
    let first = pos 0 -ℤ quot delta 100 in
    let toff = first -ℤ quot integral 20 in
    (
      omega (
        arith,
        -ℤ_parts (pos 0) (quot delta 100),
        -ℤ_parts first (quot integral 20),
        +ℤ_parts (pos c) toff,
      ),
      omega arith,
      omega (arith, +ℤ_parts (pos c) delta),
    )
