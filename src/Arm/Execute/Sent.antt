-- ===== src/Arm/Execute/Sent.antt =====
-- The set points that the control loop of `executeTrajFromShm` (src/franka_right_arm.cpp) sends,
-- and that the loop ends.
use franka_kistar_r_exp_gwb.Common.{
  ℕ, ◌+◌, ◌-◌, ◌≡◌, ◌≢◌, ◌<◌, ◌⊎◌, inl, inr, sym, ap, subst, ◌∙◌, Bool, true, false, some, List, [],
  ◌∷◌, Array, arith, if◌then◌else◌, Option-cases, Bool-cases,
}
use mathlib.Core.Option.{some-injective}
use franka_kistar_r_exp_gwb.Common.Int.{pos}
use franka_kistar_r_exp_gwb.Double.{Double, IsIeee, ◌≼◌, ◌≺◌, IsFinite, nought}
use franka_kistar_r_exp_gwb.Double.Order.{lt_of_not_le}
use franka_kistar_r_exp_gwb.Shm.{arm_dof}
use franka_kistar_r_exp_gwb.Arm.Plan.{Plan, IsSound}
use franka_kistar_r_exp_gwb.Arm.Motion.{command, total_dur}
use franka_kistar_r_exp_gwb.Arm.Motion.Between.{IsBetween, add_nonneg}
use franka_kistar_r_exp_gwb.Arm.Motion.Command.{command_along, command_end, finish}
use franka_kistar_r_exp_gwb.Arm.Execute.{
  Tick, tick, other, World, Motion, thrown, on_tick, send, interfere, run_control,
}

module _ {F : Type 0} ⦃d : Double F⦄ where
  abbrev pub All : (F × Array F → Type 0) → List (F × Array F) → Type 0
  All P [] = Unit
  All P (x ∷ xs) = P x × All P xs

  -- A set point is the callback's for its time.
  abbrev IsCommand : Plan F → F × Array F → Type 0
  IsCommand p (e, q) = (b : Bool) × (command p e ≡ some (q, b))

  run_control-commands :
      (p : Plan F) (ts : List (Tick F)) (m : Motion F)
      → All (IsCommand p) m.sent
      → All (IsCommand p) (run_control p ts m).1.sent
  unfolding run_control on_tick send interfere
  run_control-commands p [] m a = a
  run_control-commands p (other f g ∷ ts) m a = run_control-commands p ts (interfere f g m) a
  run_control-commands p (tick state period ∷ ts) m a =
      let n = on_tick state period m in
      elim (Option-cases (command p n.elapsed)) [
        | inl e ↦ rw (e, run_control) a
        | inr ((q, true), e) ↦ rw (e, run_control) ((true, e), a)
        | inr ((q, false), e) ↦
            rw (e, run_control) (run_control-commands p ts (send q n) ((false, e), a))
      ]

  All-map :
      {P Q : F × Array F → Type 0} (xs : List (F × Array F))
      → ((x : F × Array F) → P x → Q x)
      → All P xs
      → All Q xs
  All-map [] f a = tt
  All-map (x ∷ xs) f (a, as') = (f x a, All-map xs f as')

  -- The pose `q` belongs to the trajectory at the time `e`.
  abbrev pub IsOnPath : Plan F → F → Array F → Type 0
  IsOnPath p e q =
      ((i : ℕ) × (i + 1 < p.len)
        × (p.times i ≼ e)
        × (e ≺ p.times (i + 1))
        × ((j : ℕ) → j < arm_dof → IsBetween (p.waypoints i j) (p.waypoints (i + 1) j) (q j)))
      ⊎ ((total_dur p ≼ e) × (q ≡ p.waypoints (p.len - 1)))

  abbrev pub start : World F → Motion F
  start w = record { world = w; elapsed = nought; sent = [] }

  -- Whether the callback is called at a time 50 ms past the end, for an elapsed time so far.
  abbrev pub reaches : Plan F → List (Tick F) → F → Bool
  reaches p [] e = false
  reaches p (other f g ∷ ts) e = reaches p ts e
  reaches p (tick state period ∷ ts) e =
      let later = reaches p ts (d.add e period) in
      if d.le (d.add (total_dur p) (d.of_nano (pos 50_000_000))) (d.add e period)
      then true
      else later

module _ {F : Type 0} ⦃d : Double F⦄ (laws : IsIeee F) (p : Plan F) (sound : IsSound p) where
  command-IsOnPath :
      (e : F) (q : Array F) (b : Bool)
      → command p e ≡ some (q, b)
      → IsFinite e
      → p.times 0 ≼ e
      → IsOnPath p e q
  command-IsOnPath e q b h f from = elim (Bool-cases (d.le (total_dur p) e)) [
    | inl past ↦ inr (
      past,
      ap (λ (x : Array F × Bool). x.0)
          (some-injective _ _ (sym h ∙ command_end laws p sound e past)),
    )
    | inr before ↦
        let last = (sound.entries (p.len - 1) (omega arith)).finite in
        let (i, r, l, lo, hi, c, between) =
          command_along laws p sound e f from (lt_of_not_le laws e (total_dur p) f last before) in
        let same : r ≡ q = ap (λ (x : Array F × Bool). x.0) (some-injective _ _ (sym c ∙ h)) in
        inl (
          i,
          l,
          lo,
          hi,
          subst
              (λ (u : Array F).
                (j : ℕ) → j < arm_dof → IsBetween (p.waypoints i j) (p.waypoints (i + 1) j) (u j))
              same between,
        )
  ]

  -- The set point is on the path, or its time is before the first waypoint's or no number.
  set_point-IsOnPath :
      (e : F) (q : Array F)
      → IsCommand p (e, q)
      → IsOnPath p e q ⊎ (e ≺ p.times 0) ⊎ (d.is_finite e ≡ false)
  set_point-IsOnPath e q (b, c) = elim (Bool-cases (d.is_finite e)) [
    | inr f ↦ inr (inr f)
    | inl f ↦ elim (Bool-cases (d.le (p.times 0) e)) [
      | inl from ↦ inl (command-IsOnPath e q b c f from)
      | inr early ↦
          let first = (sound.entries 0 sound.nonempty).finite in
          inr (inl (lt_of_not_le laws e (p.times 0) f first early))
    ]
  ]

  -- For an accepted trajectory, every set point sent lies in each joint between the two waypoints
  -- around its time, or is the last waypoint if the end has passed, or its time is before the first
  -- waypoint's, or no finite number.
  pub run_control_safe :
      (ts : List (Tick F)) (w : World F)
      → All
          (λ (e, q). IsOnPath p e q ⊎ (e ≺ p.times 0) ⊎ (d.is_finite e ≡ false))
          (run_control p ts (start w)).1.sent
  run_control_safe ts w =
      All-map (run_control p ts (start w)).1.sent (λ (e, q) c. set_point-IsOnPath e q c)
        (run_control-commands p ts (start w) tt)

  total-le-finish : total_dur p ≼ finish laws p sound
  total-le-finish =
      add_nonneg laws (total_dur p) _ (sound.entries (p.len - 1) (omega arith)).finite
        (laws.of_nano_mono (pos 0) (pos 50_000_000) (omega arith))

  -- For an accepted trajectory, if libfranka goes on calling until 50 ms past the end, the loop
  -- ends by itself, unless the callback runs into undefined behaviour.
  pub run_control_finishes :
      (ts : List (Tick F)) (m : Motion F)
      → reaches p ts m.elapsed ≡ true
      → (run_control p ts m).0 ≢ thrown
  unfolding run_control on_tick send interfere
  run_control_finishes [] m h = λ e. cc
  run_control_finishes (other f g ∷ ts) m h = run_control_finishes ts (interfere f g m) h
  run_control_finishes (tick state period ∷ ts) m h =
      let n = on_tick state period m in
      elim (Bool-cases (d.le (finish laws p sound) n.elapsed)) [
        | inl over ↦
            let past =
              laws.le_trans (total_dur p) (finish laws p sound) n.elapsed total-le-finish over in
            let last : command p n.elapsed ≡ some (p.waypoints (p.len - 1), true) =
              subst (λ b. command p n.elapsed ≡ some (p.waypoints (p.len - 1), b)) over
                (command_end laws p sound n.elapsed past) in
            rw (last, run_control) (λ e. cc)
        | inr under ↦
            let rest : reaches p ts n.elapsed ≡ true = rw under at h in
            elim (Option-cases (command p n.elapsed)) [
              | inl e ↦ rw (e, run_control) (λ e. cc)
              | inr ((q, true), e) ↦ rw (e, run_control) (λ e. cc)
              | inr ((q, false), e) ↦ rw (e, run_control) (run_control_finishes ts (send q n) rest)
            ]
      ]
