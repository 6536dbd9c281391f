-- ===== src/Logger/Columns.antt =====
-- The datasets of src/hdf5_logger.cpp: their names, types and sizes, and the part of a sample that
-- goes to each.
use Prim.Native.String.{String}
use franka_kistar_r_exp_gwb.Common.{ℕ, ◌*◌, List, [], ◌∷◌, tabulate, concat}
use franka_kistar_r_exp_gwb.Common.Int.{ℤ}
use franka_kistar_r_exp_gwb.Shm.{
  ShmMsgs, hand_num, hand_dof, kinesthetic_sensor_num, kinesthetic_sensor_dof, tactile_sensor_num,
  finger_num, cartesian_dof, quaternion_dof, arm_num, arm_dof,
}
pub mod Sizes

pub data Column : Type 0 where
  timestamp_ns j_pos j_tar j_cur j_kin j_tac tip_pos tip_quat : Column
  arm_j_pos arm_j_tar arm_j_vel arm_c_pos arm_j_tq : Column

pub data Dtype : Type 0 where
  ullong short float double : Dtype

-- An element of a dataset.
pub data Value (F : Type 0) : Type 0 where
  int : ℤ → Value F
  real : F → Value F
  stamp : ℕ → Value F

-- In the order of their creation.
abbrev pub columns : List Column
columns =
    timestamp_ns ∷ j_pos ∷ j_tar ∷ j_cur ∷ j_kin ∷ j_tac ∷ tip_pos ∷ tip_quat ∷ arm_j_pos
    ∷ arm_j_tar ∷ arm_j_vel ∷ arm_c_pos ∷ arm_j_tq ∷ []

-- In the order of `append`, where the time comes last.
abbrev pub append_order : List Column
append_order =
    j_pos ∷ j_tar ∷ j_cur ∷ j_kin ∷ j_tac ∷ tip_pos ∷ tip_quat ∷ arm_j_pos ∷ arm_j_tar ∷ arm_j_vel
    ∷ arm_c_pos ∷ arm_j_tq ∷ timestamp_ns ∷ []

abbrev pub dataset_name : Column → String
dataset_name timestamp_ns = "00_timestamp_ns"
dataset_name j_pos = "01_j_pos"
dataset_name j_tar = "02_j_tar"
dataset_name j_cur = "03_j_cur"
dataset_name j_kin = "04_j_kin"
dataset_name j_tac = "05_j_tac"
dataset_name tip_pos = "06_tip_pos"
dataset_name tip_quat = "07_tip_quat"
dataset_name arm_j_pos = "08_arm_j_pos"
dataset_name arm_j_tar = "09_arm_j_tar"
dataset_name arm_j_vel = "10_arm_j_vel"
dataset_name arm_c_pos = "11_arm_c_pos"
dataset_name arm_j_tq = "12_arm_j_tq"

abbrev pub dtype : Column → Dtype
dtype timestamp_ns = ullong
dtype j_pos = short
dtype j_tar = short
dtype j_cur = short
dtype j_kin = short
dtype j_tac = short
dtype tip_pos = float
dtype tip_quat = float
dtype arm_j_pos = double
dtype arm_j_tar = double
dtype arm_j_vel = double
dtype arm_c_pos = double
dtype arm_j_tq = double

-- The dimensions behind the row's.
abbrev pub tail_dims : Column → List ℕ
tail_dims timestamp_ns = []
tail_dims j_pos = hand_num ∷ hand_dof ∷ []
tail_dims j_tar = hand_num ∷ hand_dof ∷ []
tail_dims j_cur = hand_num ∷ hand_dof ∷ []
tail_dims j_kin = hand_num ∷ kinesthetic_sensor_num ∷ kinesthetic_sensor_dof ∷ []
tail_dims j_tac = hand_num ∷ tactile_sensor_num ∷ []
tail_dims tip_pos = hand_num ∷ finger_num ∷ cartesian_dof ∷ []
tail_dims tip_quat = hand_num ∷ finger_num ∷ quaternion_dof ∷ []
tail_dims arm_j_pos = arm_num ∷ arm_dof ∷ []
tail_dims arm_j_tar = arm_num ∷ arm_dof ∷ []
tail_dims arm_j_vel = arm_num ∷ arm_dof ∷ []
tail_dims arm_c_pos = arm_num ∷ 16 ∷ []
tail_dims arm_j_tq = arm_num ∷ arm_dof ∷ []

abbrev table : {A B : Type 0} → (A → B) → ℕ → ℕ → (ℕ → ℕ → A) → List B
table f m n a = concat (tabulate m (λ i. tabulate n (λ j. f (a i j))))

abbrev cube : {A B : Type 0} → (A → B) → ℕ → ℕ → ℕ → (ℕ → ℕ → ℕ → A) → List B
cube f l m n a = concat (tabulate l (λ h. table f m n (a h)))

-- The array that `append` hands over, as it lies in the sample.
unfoldable pub cells : {F : Type 0} → Column → ShmMsgs F → ℕ → List (Value F)
cells timestamp_ns s now_ns = stamp now_ns ∷ []
cells j_pos s now_ns = table int hand_num hand_dof s.j_pos
cells j_tar s now_ns = table int hand_num hand_dof s.j_tar
cells j_cur s now_ns = table int hand_num hand_dof s.j_cur
cells j_kin s now_ns = cube int hand_num kinesthetic_sensor_num kinesthetic_sensor_dof s.j_kin
cells j_tac s now_ns = table int hand_num tactile_sensor_num s.j_tac
cells tip_pos s now_ns = cube real hand_num finger_num cartesian_dof s.tip_pos
cells tip_quat s now_ns = cube real hand_num finger_num quaternion_dof s.tip_quat
cells arm_j_pos s now_ns = table real arm_num arm_dof s.arm_j_pos
cells arm_j_tar s now_ns = table real arm_num arm_dof s.arm_j_tar
cells arm_j_vel s now_ns = table real arm_num arm_dof s.arm_j_vel
cells arm_c_pos s now_ns = table real arm_num 16 s.arm_c_pos
cells arm_j_tq s now_ns = table real arm_num arm_dof s.arm_j_tq
