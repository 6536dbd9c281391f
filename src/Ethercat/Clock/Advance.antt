-- ===== src/Ethercat/Clock/Advance.antt =====
-- The wake-up times of `ecatthread` (src/Ethercat_setting.cpp).
use franka_kistar_r_exp_gwb.Common.{
  ℕ, ◌+◌, ◌*◌, ◌/◌, ◌%◌, ◌≤◌, ◌<◌, ◌≡◌, ◌≢◌, ◌↔◌, sym, ap, subst, ◌∙◌, inl, inr, Bool-cases, ltb,
  refl, List, [], ◌∷◌, arith, if◌then◌else◌,
}
use franka_kistar_r_exp_gwb.Common.Int.{
  ℤ, pos, negsuc, pos_part, neg_part, ◌+ℤ◌, ◌-ℤ◌, ◌*ℤ◌, ◌≤ℤ◌, ◌<ℤ◌, quot, rem, eq_of_parts,
  +ℤ_parts, ltb_ℤ,
}
use franka_kistar_r_exp_gwb.Ethercat.Clock.{
  Timespec, nsec_per_sec, add_timespec, first_wake_up, wake_up,
}

-- The two divisions of a second split an integer.
quot-rem_parts :
    (a : ℤ)
    → let s = quot (a -ℤ rem a nsec_per_sec) nsec_per_sec in
      let r = rem a nsec_per_sec in
      pos_part s * nsec_per_sec + pos_part r + neg_part a
      ≡ neg_part s * nsec_per_sec + neg_part r + pos_part a
unfolding quot rem ◌-ℤ◌
quot-rem_parts (pos n) = ground arith
quot-rem_parts (negsuc n) = ground arith

-- The time in nanoseconds.
abbrev pub nanoseconds : Timespec → ℤ
nanoseconds ts = ts.tv_sec *ℤ pos nsec_per_sec +ℤ ts.tv_nsec

nanoseconds_parts :
    (ts : Timespec)
    → pos_part (nanoseconds ts) + neg_part ts.tv_sec * nsec_per_sec + neg_part ts.tv_nsec
      ≡ neg_part (nanoseconds ts) + pos_part ts.tv_sec * nsec_per_sec + pos_part ts.tv_nsec
unfolding ◌+ℤ◌ ◌*ℤ◌
nanoseconds_parts ts = ground arith

-- The seconds `s` and nanoseconds `r` together are `a`.
abbrev IsSplit : ℤ → ℤ → ℤ → Type 0
IsSplit s r a =
    pos_part s * nsec_per_sec + pos_part r + neg_part a
    ≡ neg_part s * nsec_per_sec + neg_part r + pos_part a

moved :
    (sec nsec s r a : ℤ)
    → IsSplit s r a
    → nanoseconds (record { tv_sec = sec +ℤ s; tv_nsec = nsec +ℤ r })
      ≡ nanoseconds (record { tv_sec = sec; tv_nsec = nsec }) +ℤ a
moved sec nsec s r a h =
    let old : Timespec = record { tv_sec = sec; tv_nsec = nsec } in
    let new : Timespec = record { tv_sec = sec +ℤ s; tv_nsec = nsec +ℤ r } in
    eq_of_parts (nanoseconds new) (nanoseconds old +ℤ a) (
      omega (
        arith,
        nanoseconds_parts old,
        nanoseconds_parts new,
        +ℤ_parts sec s,
        +ℤ_parts nsec r,
        +ℤ_parts (nanoseconds old) a,
      ))

carried :
    (sec nsec s r : ℤ)
    → IsSplit s r nsec
    → nanoseconds (record { tv_sec = sec +ℤ s; tv_nsec = r })
      ≡ nanoseconds (record { tv_sec = sec; tv_nsec = nsec })
carried sec nsec s r h =
    let old : Timespec = record { tv_sec = sec; tv_nsec = nsec } in
    let new : Timespec = record { tv_sec = sec +ℤ s; tv_nsec = r } in
    eq_of_parts (nanoseconds new) (nanoseconds old)
      (omega (arith, nanoseconds_parts old, nanoseconds_parts new, +ℤ_parts sec s))

-- Adding a time moves the clock by just that time, whatever the sign and the carry.
pub add_timespec_exact :
    (ts : Timespec) (addtime : ℤ)
    → nanoseconds (add_timespec ts addtime) ≡ nanoseconds ts +ℤ addtime
unfolding add_timespec
add_timespec_exact ts addtime =
    let r = rem addtime nsec_per_sec in
    let s = quot (addtime -ℤ r) nsec_per_sec in
    let nsec = ts.tv_nsec +ℤ r in
    let step = moved ts.tv_sec ts.tv_nsec s r addtime (quot-rem_parts addtime) in
    elim (Bool-cases (ltb_ℤ (pos nsec_per_sec) nsec)) [
      | inl over ↦ rw over (
          carried (ts.tv_sec +ℤ s) nsec (quot (nsec -ℤ rem nsec nsec_per_sec) nsec_per_sec)
            (rem nsec nsec_per_sec) (quot-rem_parts nsec)
          ∙ step)
      | inr under ↦ rw under step
    ]

-- What a wake-up time keeps: nanoseconds from 0 to a full second, which is one too many.
abbrev pub IsNormal : Timespec → Type 0
IsNormal ts = (pos 0 ≤ℤ ts.tv_nsec) × (ts.tv_nsec ≤ℤ pos nsec_per_sec)

normal_nsec : (z : ℤ) → pos 0 ≤ℤ z → (n : ℕ) × (z ≡ pos n)
normal_nsec (pos n) h = (n, refl)
normal_nsec (negsuc n) h = absurd (omega arith)

-- The nanoseconds that adding `a` to `n` leaves: the carry leaves a full second alone.
abbrev left_nsec : ℕ → ℕ → ℕ
left_nsec n a = let m = n + a % nsec_per_sec in if ltb nsec_per_sec m then m % nsec_per_sec else m

add_timespec-nsec :
    (sec : ℤ) (n a : ℕ)
    → (add_timespec (record { tv_sec = sec; tv_nsec = pos n }) (pos a)).tv_nsec
      ≡ pos (left_nsec n a)
unfolding add_timespec rem ◌+ℤ◌
add_timespec-nsec sec n a = ground arith

left_nsec-le : (n a : ℕ) → n ≤ nsec_per_sec → left_nsec n a ≤ nsec_per_sec
left_nsec-le n a h = ground arith

add_timespec-IsNormal :
    (ts : Timespec) (addtime : ℤ)
    → pos 0 ≤ℤ addtime
    → IsNormal ts
    → IsNormal (add_timespec ts addtime)
add_timespec-IsNormal ts addtime f (lo, hi) =
    let (n, e) = normal_nsec ts.tv_nsec lo in
    let (a, e') = normal_nsec addtime f in
    let out : (add_timespec ts addtime).tv_nsec ≡ pos (left_nsec n a) = rw e' (
      subst
        (λ z.
          (add_timespec (record { tv_sec = ts.tv_sec; tv_nsec = z }) (pos a)).tv_nsec
          ≡ pos (left_nsec n a))
        (sym e) (add_timespec-nsec ts.tv_sec n a)) in
    let bound : pos n ≤ℤ pos nsec_per_sec = subst (λ z. z ≤ℤ pos nsec_per_sec) e hi in
    let kept = left_nsec-le n a (omega arith) in
    subst (λ z. (pos 0 ≤ℤ z) × (z ≤ℤ pos nsec_per_sec)) (sym out) (omega arith, omega arith)

-- The result is a valid time, its nanoseconds below a full second, exactly if the nanoseconds do
-- not add up to a full second.
pub add_timespec_valid_iff :
    (sec : ℤ) (n a : ℕ)
    → n < nsec_per_sec
    → ((add_timespec (record { tv_sec = sec; tv_nsec = pos n }) (pos a)).tv_nsec
        <ℤ pos nsec_per_sec)
      ↔ (n + a % nsec_per_sec ≢ nsec_per_sec)
add_timespec_valid_iff sec n a l = rw (add_timespec-nsec sec n a) (valid_iff n a l)
  where
    valid_iff :
        (n a : ℕ)
        → n < nsec_per_sec
        → (pos (left_nsec n a) <ℤ pos nsec_per_sec) ↔ (n + a % nsec_per_sec ≢ nsec_per_sec)
    valid_iff n a l = (λ h e. ground arith, λ h. ground (arith, h))

-- The steps of the rounds: none goes back, and together they are `total`.
abbrev pub AllForward : List ℤ → Type 0
AllForward [] = Unit
AllForward (a ∷ l) = (pos 0 ≤ℤ a) × AllForward l

abbrev pub total : List ℤ → ℤ
total [] = pos 0
total (a ∷ l) = a +ℤ total l

+ℤ_assoc : (x a b : ℤ) → (x +ℤ a) +ℤ b ≡ x +ℤ (a +ℤ b)
+ℤ_assoc x a b =
    eq_of_parts ((x +ℤ a) +ℤ b) (x +ℤ (a +ℤ b))
      (omega (arith, +ℤ_parts x a, +ℤ_parts (x +ℤ a) b, +ℤ_parts a b, +ℤ_parts x (a +ℤ b)))

+ℤ_zero : (x : ℤ) → x +ℤ pos 0 ≡ x
+ℤ_zero x = eq_of_parts (x +ℤ pos 0) x (omega (arith, +ℤ_parts x (pos 0)))

wake_up_exact :
    (l : List ℤ) (ts : Timespec) → nanoseconds (wake_up l ts) ≡ nanoseconds ts +ℤ total l
unfolding wake_up
wake_up_exact [] ts = sym (+ℤ_zero (nanoseconds ts))
wake_up_exact (a ∷ l) ts =
    wake_up_exact l (add_timespec ts a)
    ∙ ap (λ z. z +ℤ total l) (add_timespec_exact ts a)
    ∙ +ℤ_assoc (nanoseconds ts) a (total l)

wake_up-IsNormal :
    (l : List ℤ) (ts : Timespec) → AllForward l → IsNormal ts → IsNormal (wake_up l ts)
unfolding wake_up
wake_up-IsNormal [] ts f h = h
wake_up-IsNormal (a ∷ l) ts (f, fs) h =
    wake_up-IsNormal l (add_timespec ts a) fs (add_timespec-IsNormal ts a f h)

-- The first wake-up time is the next full millisecond behind the clock's.
first_wake_up-nsec :
    (sec : ℤ) (n : ℕ)
    → (first_wake_up (record { tv_sec = sec; tv_nsec = pos n })).tv_nsec
      ≡ pos ((n / 1_000_000 + 1) * 1_000_000)
unfolding first_wake_up quot ◌+ℤ◌ ◌*ℤ◌
first_wake_up-nsec sec n = ground arith

-- From any valid clock time the thread starts within a millisecond, and after any rounds whose
-- steps do not go back it wakes up at the start plus their sum, with nanoseconds from 0 to a full
-- second.
pub wake_up_lem :
    (sec : ℤ) (n : ℕ) (l : List ℤ)
    → n < nsec_per_sec
    → AllForward l
    → let start = first_wake_up (record { tv_sec = sec; tv_nsec = pos n }) in
      (start.tv_sec ≡ sec)
      × (pos n <ℤ start.tv_nsec)
      × (start.tv_nsec ≤ℤ pos (n + 1_000_000))
      × IsNormal (wake_up l start)
      × (nanoseconds (wake_up l start) ≡ nanoseconds start +ℤ total l)
unfolding first_wake_up
wake_up_lem sec n l h f =
    let start = first_wake_up (record { tv_sec = sec; tv_nsec = pos n }) in
    let e = first_wake_up-nsec sec n in
    let normal : IsNormal start = rw e (omega arith, omega arith) in
    (
      refl,
      rw e (omega arith),
      rw e (omega arith),
      wake_up-IsNormal l start f normal,
      wake_up_exact l start,
    )
