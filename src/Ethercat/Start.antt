-- ===== src/Ethercat/Start.antt =====
-- src/Ethercat_setting.cpp: `ethercat_run`. What SOEM answers is an argument, and what the function
-- asks of SOEM and does to the shared state is the list of its actions. It waits for a signal,
-- which is taken to come; what it prints is left out.
use franka_kistar_r_exp_gwb.Common.{
  ℕ, ◌+◌, ◌*◌, ◌/◌, Bool, true, false, not, ◌&&◌, ◌||◌, Option, none, some, List, [], ◌∷◌, ◌++◌,
  min, max, ltb, ◌==◌, if◌then◌else◌,
}
use franka_kistar_r_exp_gwb.Common.Int.{ℤ, pos, leb_ℤ}
use franka_kistar_r_exp_gwb.Shm.{hand_num}
use franka_kistar_r_exp_gwb.Logger.File.{codes}
use franka_kistar_r_exp_gwb.Ethercat.Pdo.{hand_data_read_byte_num, hand_data_write_byte_num}
use franka_kistar_r_exp_gwb.Ethercat.Check.{ec_state_safe_op, ec_state_operational}
pub mod Trace
pub mod Order

-- ec_slave[cnt], as far as the loop over the slaves uses it; `outputs` may be a null pointer.
pub record SlaveInfo : Type 0 where
  pub eep_id : ℕ
  pub outputs : Option ℕ

-- `reached` is the state of all slaves after the last `ec_statecheck`.
pub record RunAnswers : Type 0 where
  pub initialised : Bool
  pub configured : ℤ
  pub slaves : List SlaveInfo
  pub obytes : ℕ
  pub ibytes : ℕ
  pub outputs_wkc : ℕ
  pub inputs_wkc : ℕ
  pub reached : ℕ

pub data Action : Type 0 where
  init : List ℕ → Action
  config configdc readstate close : Action
  statecheck : ℕ → Action
  request : ℕ → Action
  set_dorun pause wait_for_signal : Action
  reset_logger leave_memory : Action

pub record Run : Type 0 where
  pub actions : List Action
  pub digout : Option ℕ
  pub active_hand_num : ℕ
  pub expected_wkc : ℕ

-- The device that is used; `none` is a null pointer.
unfoldable pub device : Option (List ℕ) → List ℕ
device none = codes "enp5s0f0"
device (some []) = codes "enp5s0f0"
device (some (c ∷ cs)) = c ∷ cs

-- The loop over the slaves, which looks for the one with digital outputs.
unfoldable pub find_digout : List SlaveInfo → Option ℕ → Option ℕ
find_digout [] digout = digout
find_digout (s ∷ ss) none =
    find_digout ss
      (if (s.eep_id == 0x0af83052) || (s.eep_id == 0x07d83052) then s.outputs else none)
find_digout (s ∷ ss) (some place) = find_digout ss (some place)

-- g_active_hand_num, where `hand_num` is kHandNum.
unfoldable pub active_hands : ℕ → ℕ → ℕ → ℕ
active_hands hand_num' obytes ibytes =
    let max_hands_by_output = obytes / hand_data_write_byte_num in
    let max_hands_by_input = ibytes / hand_data_read_byte_num in
    let max_hands_by_pdo = min max_hands_by_output max_hands_by_input in
    max 1 (min hand_num' max_hands_by_pdo)

-- Once the slaves are asked to be operational: the wait for a signal, or the report.
abbrev operate : ℕ → List Action
operate reached =
    if reached == ec_state_operational then pause ∷ wait_for_signal ∷ [] else readstate ∷ []

abbrev finish : List Action
finish = reset_logger ∷ leave_memory ∷ request ec_state_safe_op ∷ close ∷ []

-- The members behind the actions keep their first values where the function returns early.
unfoldable pub ethercat_run : Option (List ℕ) → RunAnswers → Run
ethercat_run if_name a =
    if not a.initialised
    then record {
      actions = init (device if_name) ∷ [];
      digout = none;
      active_hand_num = hand_num;
      expected_wkc = 0;
    }
    else if leb_ℤ a.configured (pos 0)
    then record {
      actions = init (device if_name) ∷ config ∷ close ∷ [];
      digout = none;
      active_hand_num = hand_num;
      expected_wkc = 0;
    }
    else record {
      actions =
          init (device if_name)
          ∷ config
          ∷ configdc
          ∷ statecheck ec_state_safe_op
          ∷ readstate
          ∷ request ec_state_operational
          ∷ set_dorun
          ∷ statecheck ec_state_operational
          ∷ (operate a.reached ++ finish);
      digout = find_digout a.slaves none;
      active_hand_num = active_hands hand_num a.obytes a.ibytes;
      expected_wkc = a.outputs_wkc * 2 + a.inputs_wkc;
    }
