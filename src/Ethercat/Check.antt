-- ===== src/Ethercat/Check.antt =====
-- src/Ethercat_setting.cpp: one round of `ecatcheck`, the thread that brings lost slaves back. What
-- SOEM's calls answer is an argument; a recovery that fails leaves its record of the slave alone.
use franka_kistar_r_exp_gwb.Common.{
  ℕ, ◌+◌, Bool, true, false, not, ◌&&◌, ◌||◌, List, [], ◌∷◌, map, ltb, ◌==◌, if◌then◌else◌,
}
use franka_kistar_r_exp_gwb.Common.Int.{ℤ, ltb_ℤ}
pub mod Pass
pub mod Recover

-- The states of a slave, in SOEM's numbers.
abbrev pub ec_state_none : ℕ
ec_state_none = 0

abbrev pub ec_state_safe_op : ℕ
ec_state_safe_op = 4

abbrev pub ec_state_operational : ℕ
ec_state_operational = 8

abbrev pub ec_state_ack : ℕ
ec_state_ack = 16

abbrev pub ec_state_error : ℕ
ec_state_error = 16

-- ec_slave[slave], as far as the thread uses it.
pub record Slave : Type 0 where
  pub group : ℕ
  pub state : ℕ
  pub islost : Bool

-- What SOEM answers about one slave: whether `ec_reconfig_slave` and `ec_recover_slave` succeed and
-- the states they leave, and the state that `ec_statecheck` reads.
pub record Answers : Type 0 where
  pub reconfigured : Bool
  pub after_reconfig : ℕ
  pub checked : ℕ
  pub recovered : Bool
  pub after_recover : ℕ

-- The branches for a slave that is not operational, with the state that is requested of it by
-- `ec_writestate`.
unfoldable pub attend : Answers → Slave → Slave × List ℕ
attend a s =
    if s.state == ec_state_safe_op + ec_state_error
    then (
      record s { state = ec_state_safe_op + ec_state_ack },
      (ec_state_safe_op + ec_state_ack) ∷ [],
    )
    else if s.state == ec_state_safe_op
    then (record s { state = ec_state_operational }, ec_state_operational ∷ [])
    else if ltb ec_state_none s.state
    then (record s { state = a.after_reconfig; islost = not a.reconfigured && s.islost }, [])
    else if not s.islost
    then (record s { state = a.checked; islost = a.checked == ec_state_none }, [])
    else (s, [])

-- The second `if` of the loop, for a slave that is lost.
unfoldable pub search_lost : Answers → Slave → Slave
search_lost a s =
    if s.islost
    then if s.state == ec_state_none
      then if a.recovered then record s { state = a.after_recover; islost = false } else s
      else record s { islost = false }
    else s

abbrev pub is_faulty : ℕ → Slave → Bool
is_faulty group s = (s.group == group) && not (s.state == ec_state_operational)

-- The body of the loop: the slave, the requests, and whether it sets `docheckstate`.
unfoldable pub check_slave : ℕ → Answers → Slave → Slave × List ℕ × Bool
unfolding attend search_lost
check_slave group a s =
    if is_faulty group s
    then (let (t, w) = attend a s in (search_lost a t, w, true))
    else (search_lost a s, [], false)

-- The loop over the slaves, behind `ec_readstate`: the slaves, and `docheckstate`.
unfoldable pub check_slaves : ℕ → List (Answers × Slave) → List Slave × Bool
check_slaves group [] = ([], false)
check_slaves group ((a, s) ∷ l) =
    let (t, w, found) = check_slave group a s in
    let (ts, rest) = check_slaves group l in (t ∷ ts, found || rest)

-- The body of the endless loop, with `docheckstate` before and after it. The slaves stand for what
-- `ec_readstate` reads, if it is called.
unfoldable pub check_turn : ℤ → ℤ → Bool → ℕ → List (Answers × Slave) → List Slave × Bool
unfolding check_slaves
check_turn wkc expected_wkc docheckstate group l =
    if ltb_ℤ wkc expected_wkc || docheckstate
    then check_slaves group l
    else (map (λ x. x.1) l, docheckstate)
