-- ===== src/Logger/Impl/Refused.antt =====
-- `Impl` of src/hdf5_logger.cpp where the library refuses the file or a dataset.
use franka_kistar_r_exp_gwb.Common.{
  ◌≡◌, refl, ◌⊎◌, inl, inr, Bool, true, false, List, [], ◌∷◌, length, replicate, arith, Bool-cases,
}
use franka_kistar_r_exp_gwb.Logger.Columns.{
  Column, timestamp_ns, j_pos, j_tar, j_cur, j_kin, j_tac, tip_pos, tip_quat, arm_j_pos, arm_j_tar,
  arm_j_vel, arm_c_pos, arm_j_tq, columns,
}
use franka_kistar_r_exp_gwb.Logger.Calls.{is_invalid}
use franka_kistar_r_exp_gwb.Logger.Impl.{
  Impl, OpenAnswers, Sample, any_of, created, open_impl, append, append_all,
}

-- One column that fails fails the whole.
any_of-columns : (f : Column → Bool) (c : Column) → f c ≡ true → any_of f columns ≡ true
any_of-columns f timestamp_ns h = ground arith
any_of-columns f j_pos h = ground arith
any_of-columns f j_tar h = ground arith
any_of-columns f j_cur h = ground arith
any_of-columns f j_kin h = ground arith
any_of-columns f j_tac h = ground arith
any_of-columns f tip_pos h = ground arith
any_of-columns f tip_quat h = ground arith
any_of-columns f arm_j_pos h = ground arith
any_of-columns f arm_j_tar h = ground arith
any_of-columns f arm_j_vel h = ground arith
any_of-columns f arm_c_pos h = ground arith
any_of-columns f arm_j_tq h = ground arith

module _ (F : Type 0) where
  append_idle : (l : Impl) (s : Sample F) → l.valid ≡ false → append l s ≡ (l, [])
  unfolding append
  append_idle l s h = simp (h)

  append_all_idle :
      (l : Impl) (ss : List (Sample F))
      → l.valid ≡ false
      → append_all l ss ≡ (l, replicate (length ss) [])
  unfolding append_all
  append_all_idle l [] h = refl
  append_all_idle l (s ∷ ss) h = rw (append_idle l s h, append_all_idle l ss h) refl

  open_impl-valid :
      (a : OpenAnswers)
      → (is_invalid a.file a.file_valid ≡ true)
        ⊎ ((c : Column) × (is_invalid (created {F = F} a.file a c).0 (a.checked c) ≡ true))
      → (open_impl {F = F} a).0.valid ≡ false
  unfolding open_impl
  open_impl-valid a h = elim (Bool-cases (is_invalid a.file a.file_valid)) [
    | inl bad ↦ rw bad refl
    | inr fine ↦ elim h [
      | inl bad ↦ cc
      | inr (c, bad) ↦
          rw
            (
              fine,
              any_of-columns (λ c. is_invalid (created {F = F} a.file a c).0 (a.checked c)) c bad,
            )
            refl
    ]
  ]

  -- If the library refuses the file or one of the datasets, the logger asks the library for nothing
  -- more, however many samples it gets, and counts no row.
  pub append_all_refused :
      (a : OpenAnswers) (ss : List (Sample F))
      → (is_invalid a.file a.file_valid ≡ true)
        ⊎ ((c : Column) × (is_invalid (created {F = F} a.file a c).0 (a.checked c) ≡ true))
      → let l = (open_impl {F = F} a).0 in
        (append_all l ss ≡ (l, replicate (length ss) [])) × (l.row_count ≡ 0)
  unfolding open_impl
  append_all_refused a ss h = (
    append_all_idle (open_impl {F = F} a).0 ss (open_impl-valid a h),
    elim (Bool-cases (is_invalid a.file a.file_valid)) [
      | inl bad ↦ rw bad refl
      | inr fine ↦ rw fine refl
    ],
  )
