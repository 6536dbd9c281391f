-- ===== src/Ethercat/Check/Pass.antt =====
-- What a round of `ecatcheck` (src/Ethercat_setting.cpp) finds out.
use franka_kistar_r_exp_gwb.Common.{
  ℕ, ◌≡◌, ◌≢◌, ◌↔◌, ◌⊎◌, inl, inr, refl, false, List, [], ◌∷◌, arith, ◌==◌, Bool-cases,
}
use franka_kistar_r_exp_gwb.Ethercat.Check.{
  ec_state_none, ec_state_operational, Slave, Answers, attend, search_lost, is_faulty, check_slave,
  check_slaves,
}

-- Every slave of the group is operational.
abbrev pub AllOperational : ℕ → List (Answers × Slave) → Type 0
AllOperational group [] = Unit
AllOperational group ((a, s) ∷ l) =
    ((s.group ≢ group) ⊎ (s.state ≡ ec_state_operational)) × AllOperational group l

found-is_faulty :
    (group : ℕ) (a : Answers) (s : Slave) → (check_slave group a s).2 ≡ is_faulty group s
unfolding check_slave
found-is_faulty group a s = ground arith

sound_lem :
    (group : ℕ) (s : Slave)
    → is_faulty group s ≡ false
    → (s.group ≢ group) ⊎ (s.state ≡ ec_state_operational)
sound_lem group s h = elim (Bool-cases (s.group == group)) [
  | inl e ↦ inr (ground arith)
  | inr e ↦ inl (λ q. ground arith)
]

complete_lem :
    (group : ℕ) (s : Slave)
    → (s.group ≢ group) ⊎ (s.state ≡ ec_state_operational)
    → is_faulty group s ≡ false
complete_lem group s (inl other) = ground (arith, other)
complete_lem group s (inr fine) = ground arith

quiet_lem :
    (group : ℕ) (l : List (Answers × Slave))
    → (check_slaves group l).1 ≡ false
    → AllOperational group l
unfolding check_slaves
quiet_lem group [] h = tt
quiet_lem group ((a, s) ∷ l) h =
    let found = found-is_faulty group a s in
    (sound_lem group s (ground arith), quiet_lem group l (ground arith))

fine_lem :
    (group : ℕ) (l : List (Answers × Slave))
    → AllOperational group l
    → (check_slaves group l).1 ≡ false
unfolding check_slaves
fine_lem group [] h = refl
fine_lem group ((a, s) ∷ l) (h, hs) =
    rw (found-is_faulty group a s, complete_lem group s h, fine_lem group l hs) refl

-- A round clears the request for the next one, and reports all slaves as resumed, exactly if every
-- slave of the group was operational when the states were read.
pub check_slaves_iff :
    (group : ℕ) (l : List (Answers × Slave))
    → ((check_slaves group l).1 ≡ false) ↔ AllOperational group l
check_slaves_iff group l = (quiet_lem group l, fine_lem group l)

-- After a round every slave that is marked lost shows no state, so a slave that answers again is
-- never left marked.
abbrev pub LostIsSilent : List Slave → Type 0
LostIsSilent [] = Unit
LostIsSilent (s ∷ l) = ((s.islost ≡ false) ⊎ (s.state ≡ ec_state_none)) × LostIsSilent l

search_lost-silent :
    (a : Answers) (s : Slave)
    → ((search_lost a s).islost ≡ false) ⊎ ((search_lost a s).state ≡ ec_state_none)
unfolding search_lost
search_lost-silent a s = elim (Bool-cases s.islost) [
  | inr kept ↦ inl (ground arith)
  | inl lost ↦ elim (Bool-cases (s.state == ec_state_none)) [
    | inr answers ↦ inl (ground arith)
    | inl silent ↦ elim (Bool-cases a.recovered) [
      | inl back ↦ inl (ground arith)
      | inr gone ↦ inr (ground arith)
    ]
  ]
]

check_slave-silent :
    (group : ℕ) (a : Answers) (s : Slave)
    → ((check_slave group a s).0.islost ≡ false) ⊎ ((check_slave group a s).0.state ≡ ec_state_none)
unfolding check_slave
check_slave-silent group a s = elim (Bool-cases (is_faulty group s)) [
  | inl f ↦ rw f (search_lost-silent a (attend a s).0)
  | inr f ↦ rw f (search_lost-silent a s)
]

-- After a round every slave that is marked lost shows no state, so a slave that answers again is
-- never left marked.
pub check_slaves-LostIsSilent :
    (group : ℕ) (l : List (Answers × Slave)) → LostIsSilent (check_slaves group l).0
unfolding check_slaves
check_slaves-LostIsSilent group [] = tt
check_slaves-LostIsSilent group ((a, s) ∷ l) =
    (check_slave-silent group a s, check_slaves-LostIsSilent group l)
