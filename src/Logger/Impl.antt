-- ===== src/Logger/Impl.antt =====
-- src/hdf5_logger.cpp: `Hdf5HandLogger` and its `Impl`.
use franka_kistar_r_exp_gwb.Common.{
  ℕ, ◌+◌, ◌*◌, ◌%◌, ◌^◌, Bool, true, false, not, ◌&&◌, ◌||◌, List, [], ◌∷◌, ◌++◌, map,
  if◌then◌else◌,
}
use franka_kistar_r_exp_gwb.Common.Int.{ℤ, pos, negsuc, ltb_ℤ, leb_ℤ}
use franka_kistar_r_exp_gwb.Shm.{ShmMsgs}
use franka_kistar_r_exp_gwb.Logger.Columns.{
  Column, columns, append_order, dataset_name, dtype, tail_dims, cells,
}
use franka_kistar_r_exp_gwb.Logger.Calls.{
  Call, create_file, close_file, close_dataset, CreateAnswers, AppendAnswers, is_invalid,
  create_unlimited_dataset, append_dataset,
}
pub mod Rows
pub mod Life
pub mod Refused

-- `id c` is the member `ds_…` of the column.
pub record Impl : Type 0 where
  pub file_id : ℤ
  pub id : Column → ℤ
  pub row_count : ℕ
  pub valid : Bool

-- What the library answers to the constructor: `checked c` is the last H5Iis_valid of a dataset.
pub record OpenAnswers : Type 0 where
  pub file : ℤ
  pub file_valid : ℤ
  pub created : Column → CreateAnswers
  pub checked : Column → ℤ

-- A sample with the time of day, and what the library answers to its append.
pub record Sample (F : Type 0) : Type 0 where
  pub msgs : ShmMsgs F
  pub tv_sec : ℕ
  pub tv_usec : ℕ
  pub answers : Column → AppendAnswers

-- What the library answers to the destructor.
pub record CloseAnswers : Type 0 where
  pub file_valid : ℤ
  pub dataset_valid : Column → ℤ

abbrev pub any_of : {A : Type 0} → (A → Bool) → List A → Bool
any_of f [] = false
any_of f (x ∷ xs) = f x || any_of f xs

-- uint64_t arithmetic
abbrev pub now_ns : ℕ → ℕ → ℕ
now_ns tv_sec tv_usec = (tv_sec * 1_000_000_000 + tv_usec * 1000) % 2 ^ 64

-- id >= 0 && H5Iis_valid(id) > 0
abbrev pub is_open_id : ℤ → ℤ → Bool
is_open_id id valid = leb_ℤ (pos 0) id && ltb_ℤ (pos 0) valid

module _ {F : Type 0} where
  abbrev pub created : ℤ → OpenAnswers → Column → ℤ × List (Call F)
  created file_id a c =
      create_unlimited_dataset file_id (dataset_name c) (dtype c) (tail_dims c) (a.created c)

  abbrev pub create_all : ℤ → OpenAnswers → List Column → List (Call F)
  create_all file_id a [] = []
  create_all file_id a (c ∷ cs) = (created file_id a c).1 ++ create_all file_id a cs

  -- The constructor of `Impl`.
  unfoldable pub open_impl : OpenAnswers → Impl × List (Call F)
  open_impl a =
      if is_invalid a.file a.file_valid
      then (
        record { file_id = a.file; id = λ _. negsuc 0; row_count = 0; valid = false },
        create_file a.file ∷ [],
      )
      else (let id = λ (c : Column). (created a.file a c).0 in
          let bad = any_of (λ c. is_invalid (id c) (a.checked c)) columns in
          (
            record { file_id = a.file; id = id; row_count = 0; valid = not bad },
            create_file a.file ∷ create_all a.file a columns,
          ))

  unfoldable pub append_columns : Impl → Sample F → List Column → List (Call F)
  append_columns l s [] = []
  append_columns l s (c ∷ cs) =
      append_dataset (l.id c) (dtype c) (cells c s.msgs (now_ns s.tv_sec s.tv_usec)) (tail_dims c)
        l.row_count (s.answers c)
      ++ append_columns l s cs

  unfoldable pub append : Impl → Sample F → Impl × List (Call F)
  append l s =
      if not l.valid
      then (l, [])
      else (record l { row_count = l.row_count + 1 }, append_columns l s append_order)

  -- The samples of a session: the calls of each, and the logger after them.
  unfoldable pub append_all : Impl → List (Sample F) → Impl × List (List (Call F))
  append_all l [] = (l, [])
  append_all l (s ∷ ss) =
      let (m, calls) = append l s in let (n, rest) = append_all m ss in (n, calls ∷ rest)

  unfoldable pub close_columns : Impl → CloseAnswers → List Column → List (Call F)
  close_columns l a [] = []
  close_columns l a (c ∷ cs) =
      let rest = close_columns l a cs in
      if is_open_id (l.id c) (a.dataset_valid c) then close_dataset (l.id c) ∷ rest else rest

  -- The destructor of `Impl`.
  unfoldable pub close_impl : Impl → CloseAnswers → List (Call F)
  close_impl l a =
      close_columns l a columns
      ++ (if is_open_id l.file_id a.file_valid then close_file l.file_id ∷ [] else [])
