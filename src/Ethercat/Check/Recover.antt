-- ===== src/Ethercat/Check/Recover.antt =====
-- How `ecatcheck` (src/Ethercat_setting.cpp) brings back a slave that does as it is told.
use franka_kistar_r_exp_gwb.Common.{
  ℕ, ◌+◌, ◌/◌, ◌%◌, ◌≡◌, ◌&&◌, Bool, false, List, [], ◌∷◌, arith, ltb, ◌==◌, if◌then◌else◌,
}
use franka_kistar_r_exp_gwb.Ethercat.Check.{
  ec_state_safe_op, ec_state_operational, ec_state_error, Slave, Answers, attend, search_lost,
  check_slave,
}

-- The state that the next `ec_readstate` finds of a slave in the state `state`: the one that the
-- round left, if it wrote no request, else the requested one; but with an error (bit 4) a slave
-- ignores a request that does not acknowledge it (bit 4).
abbrev pub obey : ℕ → ℕ → List ℕ → ℕ
obey state left [] = left
obey state left (w ∷ ws) = if ltb 0 (state / 16 % 2) && (w / 16 % 2 == 0) then state else w % 16

-- One round for a slave that obeys.
unfoldable pub next_round : ℕ → Answers → Slave → Slave
unfolding check_slave
next_round group a s =
    let (t, w, _) = check_slave group a s in record t { state = obey s.state t.state w }

-- A slave of the group that is in SAFE_OP with an error, follows requests, and leaves an error only
-- by one that acknowledges it, is operational after two rounds, whatever SOEM's other calls answer,
-- and is not marked lost.
pub next_round-resumes :
    (group : ℕ) (a b : Answers) (islost : Bool)
    → let s : Slave = record {
      group = group;
      state = ec_state_safe_op + ec_state_error;
      islost = islost;
    } in
      let t = next_round group b (next_round group a s) in
      (t.state ≡ ec_state_operational) × (t.islost ≡ false)
unfolding next_round attend search_lost
next_round-resumes group a b islost = ground arith
