-- ===== src/Ethercat/Cycle/Forward.antt =====
-- The wake-up times of `ecatthread` (src/Ethercat_setting.cpp) under the correction of `ec_sync`.
use franka_kistar_r_exp_gwb.Common.{
  ℕ, suc, ◌⊎◌, ◌+◌, ◌*◌, ◌≤◌, ◌≡◌, refl, subst, List, [], ◌∷◌, arith, ltb, length, Bool-cases, inl,
  inr,
}
use franka_kistar_r_exp_gwb.Common.Int.{ℤ, pos, ◌+ℤ◌, ◌-ℤ◌, ◌≤ℤ◌, ◌<ℤ◌, +ℤ_parts}
use franka_kistar_r_exp_gwb.Double.{Double}
use franka_kistar_r_exp_gwb.Kinematics.Transform.{Maths}
use franka_kistar_r_exp_gwb.Ethercat.Clock.{SyncState, sync_integral, ec_sync}
use franka_kistar_r_exp_gwb.Ethercat.Clock.Advance.{nanoseconds, add_timespec_exact}
use franka_kistar_r_exp_gwb.Ethercat.Clock.Offset.{ec_sync_lem}
use franka_kistar_r_exp_gwb.Ethercat.Cycle.{Setup, RoundAnswers, Thread, round, rounds}

integral_step :
    (reftime : ℤ) (cycletime : ℕ) (s : SyncState)
    → (ec_sync reftime cycletime s).integral ≤ℤ s.integral +ℤ pos 1
unfolding ec_sync sync_integral ◌+ℤ◌ ◌-ℤ◌
integral_step reftime c s = ground arith

-- The correction is small enough for `k` more measurements.
abbrev pub IsBounded : ℕ → ℕ → SyncState → Type 0
IsBounded cycletime k s =
    (pos 0 <ℤ pos cycletime +ℤ s.toff) × (s.integral +ℤ pos k ≤ℤ pos (10 * cycletime))

less-IsBounded : (c k : ℕ) (s : SyncState) → IsBounded c (k + 1) s → IsBounded c k s
less-IsBounded c k s (x, y) =
    (x, omega (arith, +ℤ_parts s.integral (pos (k + 1)), +ℤ_parts s.integral (pos k)))

ec_sync-IsBounded :
    (reftime : ℤ) (c k : ℕ) (s : SyncState)
    → 1000 ≤ c
    → IsBounded c (k + 1) s
    → IsBounded c k (ec_sync reftime c s)
ec_sync-IsBounded reftime c k s h (x, y) =
    let new : SyncState = ec_sync reftime c s in
    let (less, _, _) =
      ec_sync_lem reftime c s h (omega (arith, +ℤ_parts s.integral (pos (k + 1)))) in
    (
      less,
      omega (
        arith,
        integral_step reftime c s,
        +ℤ_parts s.integral (pos (k + 1)),
        +ℤ_parts s.integral (pos 1),
        +ℤ_parts new.integral (pos k),
      ),
    )

module _ {F : Type 0} ⦃d : Double F⦄ ⦃m : Maths F⦄ where
  -- Every wake-up comes later than the one before.
  abbrev pub IsForward : Setup → List RoundAnswers → Thread F → Type 0
  IsForward u [] t = Unit
  IsForward u (a ∷ as') t =
      (nanoseconds t.ts <ℤ nanoseconds (round u a t).ts) × IsForward u as' (round u a t)

  round_time :
      (u : Setup) (a : RoundAnswers) (t : Thread F)
      → nanoseconds (round u a t).ts ≡ nanoseconds t.ts +ℤ (pos u.cycletime +ℤ t.sync.toff)
  unfolding round
  round_time u a t = elim (Bool-cases (ltb 0 t.dorun)) [
    | inl r ↦ rw r (add_timespec_exact t.ts (pos u.cycletime +ℤ t.sync.toff))
    | inr r ↦ rw r (add_timespec_exact t.ts (pos u.cycletime +ℤ t.sync.toff))
  ]

  round_sync :
      (u : Setup) (a : RoundAnswers) (t : Thread F)
      → ((round u a t).sync ≡ t.sync) ⊎ ((round u a t).sync ≡ ec_sync a.dc_time u.cycletime t.sync)
  unfolding round
  round_sync u a t = elim (Bool-cases (ltb 0 t.dorun)) [
    | inl r ↦ elim (Bool-cases u.hasdc) [
      | inl q ↦ inr (rw (r, q) refl)
      | inr q ↦ inl (rw (r, q) refl)
    ]
    | inr r ↦ inl (rw r refl)
  ]

  -- Up to ten times as many rounds as the cycle has nanoseconds, every wake-up of the thread comes
  -- later than the one before, whatever the reference clock says: the correction never turns time
  -- back. The thread starts without a correction and with an integral of nothing.
  pub round-IsForward :
      (u : Setup) (as' : List RoundAnswers) (t : Thread F)
      → 1000 ≤ u.cycletime
      → IsBounded u.cycletime (length as') t.sync
      → IsForward u as' t
  round-IsForward u [] t c h = tt
  round-IsForward u (a ∷ as') t c h = (
    rw (round_time u a t) (
        omega (
          arith,
          h.0,
          +ℤ_parts (nanoseconds t.ts) (pos u.cycletime +ℤ t.sync.toff),
          +ℤ_parts (pos u.cycletime) t.sync.toff,
        )),
    round-IsForward u as' (round u a t) c (elim (round_sync u a t) [
      | inl e ↦ rw e (less-IsBounded u.cycletime (length as') t.sync (more h))
      | inr e ↦ rw e (ec_sync-IsBounded a.dc_time u.cycletime (length as') t.sync c (more h))
    ]),
  )
    where
      more :
          IsBounded u.cycletime (suc (length as')) t.sync
          → IsBounded u.cycletime (length as' + 1) t.sync
      more h = subst (λ n. IsBounded u.cycletime n t.sync) (omega arith) h

  -- Rounds leave the correction small enough for the measurements that are left.
  pub rounds-IsBounded :
      (u : Setup) (as' : List RoundAnswers) (k : ℕ) (t : Thread F)
      → 1000 ≤ u.cycletime
      → IsBounded u.cycletime (length as' + k) t.sync
      → IsBounded u.cycletime k (rounds u as' t).sync
  unfolding rounds
  rounds-IsBounded u [] k t c h = subst (λ n. IsBounded u.cycletime n t.sync) (omega arith) h
  rounds-IsBounded u (a ∷ as') k t c h =
      let more : IsBounded u.cycletime (length as' + k + 1) t.sync =
        subst (λ n. IsBounded u.cycletime n t.sync) (omega arith) h in
      rounds-IsBounded u as' k (round u a t) c (elim (round_sync u a t) [
        | inl e ↦ rw e (less-IsBounded u.cycletime (length as' + k) t.sync more)
        | inr e ↦ rw e (ec_sync-IsBounded a.dc_time u.cycletime (length as' + k) t.sync c more)
      ])
