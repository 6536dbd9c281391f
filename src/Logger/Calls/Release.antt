-- ===== src/Logger/Calls/Release.antt =====
-- src/hdf5_logger.cpp gives back what it takes of the HDF5 library.
use Prim.Native.String.{String}
use mathlib.Core.List.{Perm, append-nil, perm_append_comm}
use mathlib.Core.List.Perm
use franka_kistar_r_exp_gwb.Common.{
  ℕ, ◌≡◌, refl, inl, inr, true, false, List, [], ◌∷◌, ◌++◌, if◌then◌else◌, Bool-cases,
}
use franka_kistar_r_exp_gwb.Common.Int.{ℤ, pos, ltb_ℤ}
use franka_kistar_r_exp_gwb.Logger.Columns.{Dtype, Value}
use franka_kistar_r_exp_gwb.Logger.Calls.{
  Call, create_space, get_space, close_space, create_plist, close_plist, CreateAnswers,
  AppendAnswers, is_invalid, create_unlimited_dataset, append_dataset,
}

-- An answer that is not negative is an object to be closed.
unfoldable pub taken : ℤ → List ℤ
taken id = if ltb_ℤ id (pos 0) then [] else id ∷ []

taken_none : (id : ℤ) → ltb_ℤ id (pos 0) ≡ true → taken id ≡ []
unfolding taken
taken_none id h = rw h refl

taken_one : (id : ℤ) → ltb_ℤ id (pos 0) ≡ false → taken id ≡ id ∷ []
unfolding taken
taken_one id h = rw h refl

module _ {F : Type 0} where
  -- The spaces and property lists that a call opens.
  abbrev pub opens : Call F → List ℤ
  opens (create_space dims max id) = taken id
  opens (get_space dset id) = taken id
  opens (create_plist id) = taken id
  opens _ = []

  -- Those that it closes: closing a negative identifier closes nothing.
  abbrev pub closes : Call F → List ℤ
  closes (close_space id) = taken id
  closes (close_plist id) = taken id
  closes _ = []

  abbrev pub all_of : (Call F → List ℤ) → List (Call F) → List ℤ
  all_of f [] = []
  all_of f (c ∷ cs) = f c ++ all_of f cs

module _ (F : Type 0) where
  -- Whatever fails, the spaces and property lists that the creation of a dataset opens are those
  -- that it closes.
  pub create_unlimited_dataset-releases :
      (file_id : ℤ) (name : String) (dtype_id : Dtype) (tail : List ℕ) (a : CreateAnswers)
      → let calls = (create_unlimited_dataset {F = F} file_id name dtype_id tail a).1 in
        Perm (all_of opens calls) (all_of closes calls)
  unfolding create_unlimited_dataset
  create_unlimited_dataset-releases file_id name dtype_id tail a =
      elim (Bool-cases (ltb_ℤ a.space (pos 0))) [
        | inl s ↦ rw (s, taken_none a.space s) (Perm.refl _)
        | inr s ↦ elim (Bool-cases (ltb_ℤ a.plist (pos 0))) [
          | inl p ↦ rw (s, p, taken_none a.plist p) (Perm.refl _)
          | inr p ↦ elim (Bool-cases (ltb_ℤ a.chunked (pos 0))) [
            | inl c ↦ rw (s, p, c, taken_one a.space s, taken_one a.plist p) (Perm.swap _ _ _)
            | inr c ↦ rw (s, p, c, taken_one a.space s, taken_one a.plist p) (Perm.swap _ _ _)
          ]
        ]
      ]

  -- So do the spaces of an append, if the library gives them.
  pub append_dataset-releases :
      (dset_id : ℤ) (dtype_id : Dtype) (cells : List (Value F)) (tail : List ℕ) (row : ℕ)
      (a : AppendAnswers)
      → let calls = append_dataset dset_id dtype_id cells tail row a in
        Perm (all_of opens calls) (all_of closes calls)
  unfolding append_dataset
  append_dataset-releases dset_id dtype_id cells tail row a =
      elim (Bool-cases (is_invalid dset_id a.valid)) [
        | inl bad ↦ rw bad (Perm.refl _)
        | inr fine ↦ elim (Bool-cases (ltb_ℤ a.extended (pos 0))) [
          | inl e ↦ rw (fine, e) (Perm.refl _)
          | inr e ↦ rw (fine, e) (swapped (taken a.file_space) (taken a.mem_space))
        ]
      ]
    where
      swapped : (xs ys : List ℤ) → Perm (xs ++ (ys ++ [])) (ys ++ (xs ++ []))
      swapped xs ys = rw (append-nil xs, append-nil ys) (perm_append_comm xs ys)
