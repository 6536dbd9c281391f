-- ===== src/Logger/Impl/Life.antt =====
-- `Impl` of src/hdf5_logger.cpp from its constructor to its destructor.
use mathlib.Core.List.{Perm, append_assoc, perm_append_comm}
use mathlib.Core.List.Perm
use franka_kistar_r_exp_gwb.Common.{
  ◌≡◌, refl, sym, ap, ◌∙◌, inl, inr, true, false, not, List, [], ◌∷◌, ◌++◌, arith, if◌then◌else◌,
  Bool-cases,
}
use franka_kistar_r_exp_gwb.Common.Int.{ℤ, pos, negsuc, ltb_ℤ}
use franka_kistar_r_exp_gwb.Logger.Columns.{Column, columns}
use franka_kistar_r_exp_gwb.Logger.Calls.{
  Call, create_file, close_file, create_dataset, close_dataset, is_invalid,
  create_unlimited_dataset,
}
use franka_kistar_r_exp_gwb.Logger.Calls.Release.{all_of}
use franka_kistar_r_exp_gwb.Logger.Impl.{
  Impl, OpenAnswers, CloseAnswers, is_open_id, created, create_all, open_impl, close_columns,
  close_impl,
}

module _ (F : Type 0) where
  -- An identifier is open, if the library says so of it.
  abbrev pub open_one : (ℤ → ℤ) → ℤ → List ℤ
  open_one valid id = if is_open_id id (valid id) then id ∷ [] else []

  -- The file or dataset that a call opens, and the one that it closes.
  abbrev pub makes : (ℤ → ℤ) → Call F → List ℤ
  makes v (create_file id) = open_one v id
  makes v (create_dataset f n t sp p id) = open_one v id
  makes v _ = []

  abbrev pub frees : Call F → List ℤ
  frees (close_file id) = id ∷ []
  frees (close_dataset id) = id ∷ []
  frees _ = []

  -- The library answers each question about an identifier the same way.
  abbrev pub Steady : (ℤ → ℤ) → OpenAnswers → CloseAnswers → Type 0
  Steady v a b =
      (a.file_valid ≡ v a.file)
      × (b.file_valid ≡ v a.file)
      × ((c : Column) → (a.created c).valid ≡ v (a.created c).dataset)
      × ((c : Column) → b.dataset_valid c ≡ v (created {F = F} a.file a c).0)

  open_or_invalid : (id v : ℤ) → is_open_id id v ≡ not (is_invalid id v)
  open_or_invalid id v = ground arith

  create-held :
      (v : ℤ → ℤ) (file_id : ℤ) (a : OpenAnswers) (c : Column) (rest : List (Call F))
      → (a.created c).valid ≡ v (a.created c).dataset
      → all_of (makes v) ((created file_id a c).1 ++ rest)
        ≡ open_one v (created {F = F} file_id a c).0 ++ all_of (makes v) rest
  unfolding create_unlimited_dataset
  create-held v file_id a c rest h = elim (Bool-cases (ltb_ℤ (a.created c).space (pos 0))) [
    | inl s ↦ rw s refl
    | inr s ↦ elim (Bool-cases (ltb_ℤ (a.created c).plist (pos 0))) [
      | inl p ↦ rw (s, p) refl
      | inr p ↦ elim (Bool-cases (ltb_ℤ (a.created c).chunked (pos 0))) [
        | inl k ↦ rw (s, p, k) refl
        | inr k ↦ elim (Bool-cases (is_invalid (a.created c).dataset (a.created c).valid)) [
          | inl bad ↦
              rw
                (
                  s,
                  p,
                  k,
                  bad,
                  open_or_invalid (a.created c).dataset (v (a.created c).dataset),
                  ← h,
                  bad,
                )
                refl
          | inr fine ↦ rw (s, p, k, fine) refl
        ]
      ]
    ]
  ]

  create_all-held :
      (v : ℤ → ℤ) (a : OpenAnswers) (l : Impl) (b : CloseAnswers) (cs : List Column)
      → ((c : Column) → (a.created c).valid ≡ v (a.created c).dataset)
      → ((c : Column) → l.id c ≡ (created {F = F} a.file a c).0)
      → ((c : Column) → b.dataset_valid c ≡ v (l.id c))
      → all_of (makes v) (create_all a.file a cs) ≡ all_of frees (close_columns l b cs)
  unfolding close_columns
  create_all-held v a l b [] h i k = refl
  create_all-held v a l b (c ∷ cs) h i k =
      create-held v a.file a c (create_all a.file a cs) (h c)
      ∙ (rw (← i c, create_all-held v a l b cs h i k, k c)
          (elim (Bool-cases (is_open_id (l.id c) (v (l.id c)))) [
            | inl o ↦ rw o refl
            | inr o ↦ rw o refl
          ]))

  all_of-append :
      (f : Call F → List ℤ) (xs ys : List (Call F))
      → all_of f (xs ++ ys) ≡ all_of f xs ++ all_of f ys
  all_of-append f [] ys = refl
  all_of-append f (x ∷ xs) ys =
      rw (all_of-append f xs ys) (sym (append_assoc (f x) (all_of f xs) (all_of f ys)))

  open_impl_fine :
      (a : OpenAnswers)
      → is_invalid a.file a.file_valid ≡ false
      → let (l, calls) = open_impl {F = F} a in
        (l.file_id ≡ a.file)
        × ((c : Column) → l.id c ≡ (created {F = F} a.file a c).0)
        × (calls ≡ create_file a.file ∷ create_all a.file a columns)
  unfolding open_impl
  open_impl_fine a h = rw h (refl, (λ c. refl), refl)

  open_impl_bad :
      (a : OpenAnswers)
      → is_invalid a.file a.file_valid ≡ true
      → let (l, calls) = open_impl {F = F} a in
        (l.file_id ≡ a.file)
        × ((c : Column) → l.id c ≡ negsuc 0)
        × (calls ≡ create_file a.file ∷ [])
  unfolding open_impl
  open_impl_bad a h = rw h (refl, (λ c. refl), refl)

  close_columns_none :
      (l : Impl) (b : CloseAnswers) (cs : List Column)
      → ((c : Column) → l.id c ≡ negsuc 0)
      → close_columns {F = F} l b cs ≡ []
  unfolding close_columns
  close_columns_none l b [] h = refl
  close_columns_none l b (c ∷ cs) h = rw (h c, close_columns_none l b cs h) refl

  close_file-freed :
      (v : ℤ → ℤ) (l : Impl) (b : CloseAnswers)
      → b.file_valid ≡ v l.file_id
      → all_of frees (close_impl l b)
        ≡ all_of frees (close_columns l b columns) ++ open_one v l.file_id
  unfolding close_impl
  close_file-freed v l b f =
      all_of-append frees (close_columns l b columns) _
      ∙ ap (λ x. all_of frees (close_columns l b columns) ++ x)
          (elim (Bool-cases (is_open_id l.file_id (v l.file_id))) [
            | inl o ↦ rw (f, o) refl
            | inr o ↦ rw (f, o) refl
          ])

  -- What the constructor got from the library as a valid file or dataset, the destructor closes,
  -- each once and nothing else, be the logger usable or not.
  pub close_impl-open_impl :
      (v : ℤ → ℤ) (a : OpenAnswers) (b : CloseAnswers)
      → Steady v a b
      → Perm
          (all_of (makes v) (open_impl a).1)
          (all_of frees (close_impl (open_impl {F = F} a).0 b))
  close_impl-open_impl v a b (e, f, g, h) = elim (Bool-cases (is_invalid a.file a.file_valid)) [
    | inl bad ↦
        let (i, j, k) = open_impl_bad a bad in
        rw
          (
            k,
            close_file-freed v (open_impl {F = F} a).0 b (rw i f),
            i,
            close_columns_none (open_impl {F = F} a).0 b columns j,
            open_or_invalid a.file (v a.file),
            ← e,
            bad,
          )
          (Perm.refl _)
    | inr fine ↦
        let (i, j, k) = open_impl_fine a fine in
        rw
          (
            k,
            close_file-freed v (open_impl {F = F} a).0 b (rw i f),
            i,
            create_all-held v a (open_impl {F = F} a).0 b columns g j (λ c. rw (j c) (h c)),
          )
          (perm_append_comm (open_one v a.file)
            (all_of frees (close_columns {F = F} (open_impl {F = F} a).0 b columns)))
  ]
