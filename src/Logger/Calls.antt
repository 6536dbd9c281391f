-- ===== src/Logger/Calls.antt =====
-- src/hdf5_logger.cpp: `create_unlimited_dataset_c` and `append_dataset_c`.
use Prim.Native.String.{String}
use franka_kistar_r_exp_gwb.Common.{
  ℕ, ◌+◌, Bool, ◌||◌, Option, none, some, List, [], ◌∷◌, ◌++◌, map, if◌then◌else◌,
}
use franka_kistar_r_exp_gwb.Common.Int.{ℤ, pos, negsuc, ltb_ℤ, leb_ℤ}
use franka_kistar_r_exp_gwb.Logger.Columns.{Dtype, Value}
pub mod Release

-- A call of the HDF5 library, its answer last. In the limits of a space `none` is H5S_UNLIMITED.
pub data Call (F : Type 0) : Type 0 where
  create_file : ℤ → Call F
  close_file : ℤ → Call F
  create_space : List ℕ → List (Option ℕ) → ℤ → Call F
  get_space : ℤ → ℤ → Call F
  close_space : ℤ → Call F
  create_plist : ℤ → Call F
  set_chunk : ℤ → List ℕ → ℤ → Call F
  close_plist : ℤ → Call F
  create_dataset : ℤ → String → Dtype → ℤ → ℤ → ℤ → Call F
  close_dataset : ℤ → Call F
  set_extent : ℤ → List ℕ → ℤ → Call F
  select : ℤ → List ℕ → List ℕ → Call F
  write : ℤ → Dtype → ℤ → ℤ → List (Value F) → Call F

abbrev pub chunk_rows : ℕ
chunk_rows = 256

-- id < 0 || H5Iis_valid(id) <= 0
abbrev pub is_invalid : ℤ → ℤ → Bool
is_invalid id valid = ltb_ℤ id (pos 0) || leb_ℤ valid (pos 0)

pub record CreateAnswers : Type 0 where
  pub space : ℤ
  pub plist : ℤ
  pub chunked : ℤ
  pub dataset : ℤ
  pub valid : ℤ

pub record AppendAnswers : Type 0 where
  pub valid : ℤ
  pub extended : ℤ
  pub file_space : ℤ
  pub mem_space : ℤ

module _ {F : Type 0} where
  -- The identifier returned, and the calls. H5I_INVALID_HID is -1, too.
  unfoldable pub create_unlimited_dataset :
      ℤ → String → Dtype → List ℕ → CreateAnswers → ℤ × List (Call F)
  create_unlimited_dataset file_id name dtype_id tail a =
      let space = create_space (0 ∷ tail) (none ∷ map some tail) a.space in
      let plist = create_plist a.plist in
      let chunk = set_chunk a.plist (chunk_rows ∷ tail) a.chunked in
      let dataset = create_dataset file_id name dtype_id a.space a.plist a.dataset in
      if ltb_ℤ a.space (pos 0)
      then (negsuc 0, space ∷ [])
      else if ltb_ℤ a.plist (pos 0)
      then (negsuc 0, space ∷ plist ∷ close_space a.space ∷ [])
      else if ltb_ℤ a.chunked (pos 0)
      then (negsuc 0, space ∷ plist ∷ chunk ∷ close_plist a.plist ∷ close_space a.space ∷ [])
      else (
        if is_invalid a.dataset a.valid then negsuc 0 else a.dataset,
        space ∷ plist ∷ chunk ∷ dataset ∷ close_plist a.plist ∷ close_space a.space ∷ [],
      )

  unfoldable pub append_dataset :
      ℤ → Dtype → List (Value F) → List ℕ → ℕ → AppendAnswers → List (Call F)
  append_dataset dset_id dtype_id cells tail row a =
      if is_invalid dset_id a.valid
      then []
      else set_extent dset_id ((row + 1) ∷ tail) a.extended
        ∷ (if ltb_ℤ a.extended (pos 0)
            then []
            else get_space dset_id a.file_space
              ∷ select a.file_space (row ∷ map (λ _. 0) tail) (1 ∷ tail)
              ∷ create_space (1 ∷ tail) (map some (1 ∷ tail)) a.mem_space
              ∷ write dset_id dtype_id a.mem_space a.file_space cells
              ∷ close_space a.mem_space
              ∷ close_space a.file_space
              ∷ [])
