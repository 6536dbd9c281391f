-- ===== src/Logger/Impl/Rows.antt =====
-- What `append` of src/hdf5_logger.cpp writes, and to which rows.
use franka_kistar_r_exp_gwb.Common.{
  ℕ, ◌+◌, ◌*◌, ◌/◌, ◌%◌, ◌^◌, ◌≡◌, false, List, [], ◌∷◌, map, get_or, tabulate,
}
use franka_kistar_r_exp_gwb.Common.Int.{ℤ, pos, negsuc, ltb_ℤ}
use franka_kistar_r_exp_gwb.Shm.{ShmMsgs}
use franka_kistar_r_exp_gwb.Logger.Columns.{
  Column, timestamp_ns, j_pos, j_tar, j_cur, j_kin, j_tac, tip_pos, tip_quat, arm_j_pos, arm_j_tar,
  arm_j_vel, arm_c_pos, arm_j_tq, Value, int, real, stamp,
}
use franka_kistar_r_exp_gwb.Logger.Calls.{
  Call, create_file, close_file, create_space, get_space, close_space, create_plist, set_chunk,
  close_plist, create_dataset, close_dataset, set_extent, select, write, is_invalid,
}
use franka_kistar_r_exp_gwb.Logger.Impl.{Impl, Sample}

-- The dataset whose extent was set last, with its rows, and the space in which rows were selected
-- last, with the first row and their number.
pub record Latest : Type 0 where
  pub extent : ℤ × ℕ
  pub selected : ℤ × ℕ × ℕ

abbrev pub nothing : Latest
nothing = record { extent = (negsuc 0, 0); selected = (negsuc 0, 0, 0) }

-- A write: the dataset, what was set and selected before it, its two spaces and the values.
pub record Landing (F : Type 0) : Type 0 where
  pub dataset : ℤ
  pub latest : Latest
  pub file : ℤ
  pub mem : ℤ
  pub values : List (Value F)

-- All that a log keeps, the time last.
abbrev pub parts : List Column
parts =
    j_pos ∷ j_tar ∷ j_cur ∷ j_kin ∷ j_tac ∷ tip_pos ∷ tip_quat ∷ arm_j_pos ∷ arm_j_tar ∷ arm_j_vel
    ∷ arm_c_pos ∷ arm_j_tq ∷ timestamp_ns ∷ []

module _ {F : Type 0} where
  abbrev pub landings : Latest → List (Call F) → List (Landing F)
  landings w [] = []
  landings w (write id t mem file v ∷ cs) =
      record { dataset = id; latest = w; file = file; mem = mem; values = v } ∷ landings w cs
  landings w (set_extent id dims status ∷ cs) =
      landings (record w { extent = (id, get_or dims 0 0) }) cs
  landings w (select space start count ∷ cs) =
      landings (record w { selected = (space, get_or start 0 0, get_or count 0 0) }) cs
  landings w (create_file id ∷ cs) = landings w cs
  landings w (close_file id ∷ cs) = landings w cs
  landings w (create_space dims max id ∷ cs) = landings w cs
  landings w (get_space d id ∷ cs) = landings w cs
  landings w (close_space id ∷ cs) = landings w cs
  landings w (create_plist id ∷ cs) = landings w cs
  landings w (set_chunk p dims status ∷ cs) = landings w cs
  landings w (close_plist id ∷ cs) = landings w cs
  landings w (create_dataset f n t sp p id ∷ cs) = landings w cs
  landings w (close_dataset id ∷ cs) = landings w cs

  -- What a sample at a time leaves in a dataset: the array of the message segment, in row-major
  -- order, or the nanoseconds since 1970 as far as 64 bits hold them.
  abbrev pub part : Column → ShmMsgs F → ℕ → ℕ → List (Value F)
  part timestamp_ns s sec usec = stamp ((sec * 1_000_000 + usec) * 1000 % 2 ^ 64) ∷ []
  part j_pos s sec usec = tabulate 16 (λ k. int (s.j_pos 0 k))
  part j_tar s sec usec = tabulate 16 (λ k. int (s.j_tar 0 k))
  part j_cur s sec usec = tabulate 16 (λ k. int (s.j_cur 0 k))
  part j_kin s sec usec = tabulate 12 (λ k. int (s.j_kin 0 (k / 3) (k % 3)))
  part j_tac s sec usec = tabulate 60 (λ k. int (s.j_tac 0 k))
  part tip_pos s sec usec = tabulate 12 (λ k. real (s.tip_pos 0 (k / 3) (k % 3)))
  part tip_quat s sec usec = tabulate 16 (λ k. real (s.tip_quat 0 (k / 4) (k % 4)))
  part arm_j_pos s sec usec = tabulate 7 (λ k. real (s.arm_j_pos 0 k))
  part arm_j_tar s sec usec = tabulate 7 (λ k. real (s.arm_j_tar 0 k))
  part arm_j_vel s sec usec = tabulate 7 (λ k. real (s.arm_j_vel 0 k))
  part arm_c_pos s sec usec = tabulate 16 (λ k. real (s.arm_c_pos 0 k))
  part arm_j_tq s sec usec = tabulate 7 (λ k. real (s.arm_j_tq 0 k))

  -- The dataset is given the row, which alone is selected in the space that the write uses.
  abbrev pub landed : (Column → ℤ) → ℕ → Sample F → Column → Landing F
  landed id row s c =
      let file = (s.answers c).file_space in
      record {
        dataset = id c;
        latest = record { extent = (id c, row + 1); selected = (file, row, 1) };
        file = file;
        mem = (s.answers c).mem_space;
        values = part c s.msgs s.tv_sec s.tv_usec;
      }

  -- The columns of a sample in one row.
  abbrev pub logged : (Column → ℤ) → ℕ → Sample F → List Column → List (Landing F)
  logged id row s cs = map (landed id row s) cs

  -- A log of the samples in successive rows.
  abbrev pub log_of : (Column → ℤ) → ℕ → List (Sample F) → List (List (Landing F))
  log_of id row [] = []
  log_of id row (s ∷ ss) = logged id row s parts ∷ log_of id (row + 1) ss

  -- What the library lets through: the dataset is valid and takes the new extent.
  abbrev pub Accepts : (Column → ℤ) → Sample F → List Column → Type 0
  Accepts id s [] = Unit
  Accepts id s (c ∷ cs) =
      (is_invalid (id c) (s.answers c).valid ≡ false)
      × (ltb_ℤ (s.answers c).extended (pos 0) ≡ false)
      × Accepts id s cs

  abbrev pub AcceptsAll : (Column → ℤ) → List (Sample F) → Type 0
  AcceptsAll id [] = Unit
  AcceptsAll id (s ∷ ss) = Accepts id s parts × AcceptsAll id ss
