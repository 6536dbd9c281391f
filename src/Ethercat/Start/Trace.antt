-- ===== src/Ethercat/Start/Trace.antt =====
-- How `ethercat_run` (src/Ethercat_setting.cpp) leaves the bus and the memory.
use franka_kistar_r_exp_gwb.Common.{
  ℕ, suc, ◌*◌, ◌≤◌, ◌<◌, ◌≡◌, ◌⊎◌, inl, inr, refl, Bool, true, false, not, ◌&&◌, Option, none, some,
  List, [], ◌∷◌, arith, ◌==◌, if◌then◌else◌, Bool-cases,
}
use franka_kistar_r_exp_gwb.Common.Int.{pos, leb_ℤ}
use franka_kistar_r_exp_gwb.Ethercat.Check.{ec_state_safe_op, ec_state_operational}
use franka_kistar_r_exp_gwb.Ethercat.Start.{
  Action, close, request, set_dorun, leave_memory, RunAnswers, active_hands, ethercat_run,
}

abbrev pub is_close : Action → Bool
is_close close = true
is_close _ = false

abbrev pub is_leave : Action → Bool
is_leave leave_memory = true
is_leave _ = false

abbrev pub is_dorun : Action → Bool
is_dorun set_dorun = true
is_dorun _ = false

abbrev pub count : (Action → Bool) → List Action → ℕ
count f [] = 0
count f (x ∷ xs) = if f x then suc (count f xs) else count f xs

-- The state that the slaves were last asked to take, if any.
abbrev request_of : Action → Option ℕ → Option ℕ
request_of (request s) o = some s
request_of _ o = o

abbrev pub last_request : Option ℕ → List Action → Option ℕ
last_request o [] = o
last_request o (x ∷ xs) = last_request (request_of x o) xs

-- The socket is closed once if it was opened. Where slaves were found, the thread is set to run
-- once, the memory is left once and the last request is the safe state, whether the slaves became
-- operational or not. Where none were found, nothing is requested and the memory is not left.
pub ethercat_run-finish :
    (if_name : Option (List ℕ)) (a : RunAnswers)
    → let found = a.initialised && not (leb_ℤ a.configured (pos 0)) in
      let actions = (ethercat_run if_name a).actions in
      (count is_close actions ≡ (if a.initialised then 1 else 0))
      × (count is_leave actions ≡ (if found then 1 else 0))
      × (count is_dorun actions ≡ (if found then 1 else 0))
      × (last_request none actions ≡ (if found then some ec_state_safe_op else none))
unfolding ethercat_run
ethercat_run-finish if_name a = elim (Bool-cases a.initialised) [
  | inr i ↦ simp (i) (refl, refl, refl, refl)
  | inl i ↦ elim (Bool-cases (leb_ℤ a.configured (pos 0))) [
    | inl c ↦ simp (i, c) (refl, refl, refl, refl)
    | inr c ↦ elim (Bool-cases (a.reached == ec_state_operational)) [
      | inl r ↦ simp (i, c, r) (refl, refl, refl, refl)
      | inr r ↦ simp (i, c, r) (refl, refl, refl, refl)
    ]
  ]
]

-- At least one hand is served and at most as many as there are, and the process image holds what
-- they send and receive, unless it has not even room for one hand, which is served all the same.
pub active_hands_fit :
    (hand_num obytes ibytes : ℕ)
    → 1 ≤ hand_num
    → let n = active_hands hand_num obytes ibytes in
      (1 ≤ n)
      × (n ≤ hand_num)
      × (((n * 64 ≤ obytes) × (n * 256 ≤ ibytes)) ⊎ ((n ≡ 1) × ((obytes < 64) ⊎ (ibytes < 256))))
unfolding active_hands
active_hands_fit hand_num obytes ibytes h =
    (omega arith, omega arith, fit (small obytes 64) (small ibytes 256))
  where
    small : (n k : ℕ) → (n < k) ⊎ (k ≤ n)
    small n k = omega arith

    fit :
        (obytes < 64) ⊎ (64 ≤ obytes)
        → (ibytes < 256) ⊎ (256 ≤ ibytes)
        → let n = active_hands hand_num obytes ibytes in
          ((n * 64 ≤ obytes) × (n * 256 ≤ ibytes)) ⊎ ((n ≡ 1) × ((obytes < 64) ⊎ (ibytes < 256)))
    fit (inl o) i = inr (omega arith, inl o)
    fit (inr o) (inl i) = inr (omega arith, inr i)
    fit (inr o) (inr i) = inl (omega arith, omega arith)
