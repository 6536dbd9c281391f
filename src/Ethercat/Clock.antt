-- ===== src/Ethercat/Clock.antt =====
-- src/Ethercat_setting.cpp: the clock of the cyclic thread, that is `add_timespec`, `ec_sync` and
-- the first wake-up time of `ecatthread`. An `int64` is an integer: the times stay below 2^62 ns,
-- far from overflow.
use franka_kistar_r_exp_gwb.Common.{ℕ, ◌+◌, ◌*◌, ◌/◌, ◌<◌, Bool, List, [], ◌∷◌, if◌then◌else◌}
use franka_kistar_r_exp_gwb.Common.Int.{
  ℤ, pos, negsuc, pos_part, sub_ℕ, ◌+ℤ◌, ◌-ℤ◌, ◌*ℤ◌, quot, rem, ltb_ℤ,
}
pub mod Advance
pub mod Offset

abbrev pub nsec_per_sec : ℕ
nsec_per_sec = 1_000_000_000

pub record Timespec : Type 0 where
  pub tv_sec : ℤ
  pub tv_nsec : ℤ

unfoldable pub add_timespec : Timespec → ℤ → Timespec
unfolding ◌+ℤ◌ ◌-ℤ◌ quot rem
add_timespec ts addtime =
    let nsec = rem addtime nsec_per_sec in
    let sec = quot (addtime -ℤ nsec) nsec_per_sec in
    let t : Timespec = record { tv_sec = ts.tv_sec +ℤ sec; tv_nsec = ts.tv_nsec +ℤ nsec } in
    if ltb_ℤ (pos nsec_per_sec) t.tv_nsec
    then (let n = rem t.tv_nsec nsec_per_sec in
        record { tv_sec = t.tv_sec +ℤ quot (t.tv_nsec -ℤ n) nsec_per_sec; tv_nsec = n })
    else t

-- `ht` and the time that the loop starts from.
unfoldable pub first_wake_up : Timespec → Timespec
unfolding ◌+ℤ◌ ◌*ℤ◌ quot
first_wake_up ts =
    let ht = quot ts.tv_nsec 1_000_000 +ℤ pos 1 in record ts { tv_nsec = ht *ℤ pos 1_000_000 }

-- The static `integral`, `toff` and `gl_delta`.
pub record SyncState : Type 0 where
  pub integral : ℤ
  pub toff : ℤ
  pub gl_delta : ℤ

-- `delta`, brought into the half cycle.
unfoldable pub sync_delta : ℤ → ℕ → ℤ
unfolding ◌-ℤ◌ rem
sync_delta reftime cycletime =
    let delta = rem (reftime -ℤ pos 50_000) cycletime in
    if ltb_ℤ (pos (cycletime / 2)) delta then delta -ℤ pos cycletime else delta

unfoldable pub sync_integral : ℤ → ℤ → ℤ
unfolding ◌+ℤ◌ ◌-ℤ◌
sync_integral delta integral =
    let up = if ltb_ℤ (pos 0) delta then integral +ℤ pos 1 else integral in
    if ltb_ℤ delta (pos 0) then up -ℤ pos 1 else up

unfoldable pub ec_sync : ℤ → ℕ → SyncState → SyncState
unfolding ◌-ℤ◌ quot sync_delta sync_integral
ec_sync reftime cycletime s =
    let delta = sync_delta reftime cycletime in
    let integral = sync_integral delta s.integral in
    record {
      integral = integral;
      toff = (pos 0 -ℤ quot delta 100) -ℤ quot integral 20;
      gl_delta = delta;
    }

-- The wake-up times of the rounds whose steps `cycletime + toff` are given.
unfoldable pub wake_up : List ℤ → Timespec → Timespec
wake_up [] ts = ts
wake_up (addtime ∷ l) ts = wake_up l (add_timespec ts addtime)
