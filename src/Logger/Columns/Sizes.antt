-- ===== src/Logger/Columns/Sizes.antt =====
-- The selections of src/hdf5_logger.cpp fit the arrays of a sample.
use franka_kistar_r_exp_gwb.Common.{ℕ, ◌+◌, ◌*◌, ◌≤◌, ◌≡◌, refl, List, [], ◌∷◌, length, arith}
use franka_kistar_r_exp_gwb.Shm.{ShmMsgs}
use franka_kistar_r_exp_gwb.Logger.Columns.{
  Column, tail_dims, cells, timestamp_ns, j_pos, j_tar, j_cur, j_kin, j_tac, tip_pos, tip_quat,
  arm_j_pos, arm_j_tar, arm_j_vel, arm_c_pos, arm_j_tq,
}

-- The number of elements in a row of a dataset.
abbrev pub elements : List ℕ → ℕ
elements [] = 1
elements (n ∷ ns) = n * elements ns

-- A row of each dataset has as many elements as the array that is written to it, so a write reads
-- no memory behind the array; and its rank fits the buffers of 8 indices.
cells-size :
    {F : Type 0} (c : Column) (s : ShmMsgs F) (now_ns : ℕ)
    → (length (cells c s now_ns) ≡ elements (tail_dims c)) × (length (tail_dims c) + 1 ≤ 8)
unfolding cells
cells-size timestamp_ns s now_ns = (refl, omega arith)
cells-size j_pos s now_ns = (refl, omega arith)
cells-size j_tar s now_ns = (refl, omega arith)
cells-size j_cur s now_ns = (refl, omega arith)
cells-size j_kin s now_ns = (refl, omega arith)
cells-size j_tac s now_ns = (refl, omega arith)
cells-size tip_pos s now_ns = (refl, omega arith)
cells-size tip_quat s now_ns = (refl, omega arith)
cells-size arm_j_pos s now_ns = (refl, omega arith)
cells-size arm_j_tar s now_ns = (refl, omega arith)
cells-size arm_j_vel s now_ns = (refl, omega arith)
cells-size arm_c_pos s now_ns = (refl, omega arith)
cells-size arm_j_tq s now_ns = (refl, omega arith)
