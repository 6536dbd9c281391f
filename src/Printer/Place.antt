-- ===== src/Printer/Place.antt =====
-- Where src/shm_print.cpp and `data_print_thread` of src/franka_right_arm.cpp write.
use franka_kistar_r_exp_gwb.Common.{
  ℕ, suc, ◌+◌, ◌-◌, ◌≡◌, refl, ap, ap₂, ◌∙◌, true, false, List, [], ◌∷◌, ◌++◌, arith, ◌==◌,
  if◌then◌else◌,
}
use franka_kistar_r_exp_gwb.Common.Int.{ℤ}
use franka_kistar_r_exp_gwb.Shm.{ShmMsgs}
use franka_kistar_r_exp_gwb.Logger.File.{codes}
use franka_kistar_r_exp_gwb.Printer.{
  Format, Output, text, up, print_lines, separated, frame, print_frames, data_line, print_data,
}

abbrev pub newlines : List ℕ → ℕ
newlines [] = 0
newlines (c ∷ cs) = if c == 10 then suc (newlines cs) else newlines cs

pub newlines-append : (xs ys : List ℕ) → newlines (xs ++ ys) ≡ newlines xs + newlines ys
newlines-append [] ys = omega arith
newlines-append (x ∷ xs) ys = let h = newlines-append xs ys in ground arith

-- The row of the cursor after output that starts in the row `r`.
abbrev pub row_after : ℕ → List Output → ℕ
row_after r [] = r
row_after r (text t ∷ out) = row_after (r + newlines t) out
row_after r (up n ∷ out) = row_after (r - n) out

-- All text of output that starts in the row `r` begins in the row `home`.
abbrev pub StartsAt : ℕ → ℕ → List Output → Type 0
StartsAt home r [] = Unit
StartsAt home r (text t ∷ out) = (r ≡ home) × StartsAt home (r + newlines t) out
StartsAt home r (up n ∷ out) = StartsAt home (r - n) out

module _ {F : Type 0} where
  -- A number is written without a new line.
  abbrev pub IsInline : Format F → Type 0
  IsInline f =
      ((x : F) → newlines (f.real x) ≡ 0)
      × ((i : ℤ) → newlines (f.int i) ≡ 0)
      × ((n : ℕ) → newlines (f.count n) ≡ 0)

pub separated-newlines :
    {A : Type 0} (sep : List ℕ) (f : A → List ℕ)
    → newlines sep ≡ 0
    → ((x : A) → newlines (f x) ≡ 0)
    → (xs : List A) → newlines (separated sep f xs) ≡ 0
unfolding separated
separated-newlines sep f s h [] = refl
separated-newlines sep f s h (x ∷ []) = h x
separated-newlines sep f s h (x ∷ (y ∷ ys)) =
    let rest = separated sep f (y ∷ ys) in
    newlines-append (f x) (sep ++ rest)
    ∙ ap₂ (λ m n. m + n) (h x)
        (newlines-append sep rest ∙ ap₂ (λ m n. m + n) s (separated-newlines sep f s h (y ∷ ys)))

module _ {F : Type 0} where
  frame-newlines :
      (f : Format F) (shm : ShmMsgs F) → IsInline f → newlines (frame f shm) ≡ print_lines
  unfolding frame
  frame-newlines f shm (a, b, c) = simp (
    newlines-append,
    separated-newlines (codes ", ") f.real refl a,
    separated-newlines (codes ", ") f.int refl b,
    c (shm.servo_on 0),
    c (shm.hand_mode 0),
  )

  data_line-newlines :
      (f : Format F) (shm : ShmMsgs F) → IsInline f → newlines (data_line f shm) ≡ 0
  unfolding data_line
  data_line-newlines f shm (a, b, c) =
      simp (newlines-append, separated-newlines (codes ", ") f.real refl a, b (shm.j_pos 0 0))

  later_frames :
      (f : Format F) (shms : List (ShmMsgs F)) (r : ℕ)
      → IsInline f
      → StartsAt r (r + print_lines) (print_frames f false shms)
        × (row_after (r + print_lines) (print_frames f false shms) ≡ r + print_lines)
  unfolding print_frames
  later_frames f [] r h = (tt, refl)
  later_frames f (shm ∷ shms) r h =
      let back : r + print_lines - print_lines ≡ r = omega arith in
      let (x, y) = later_frames f shms r h in
      (
        rw (back, frame-newlines f shm h) (refl, x),
        ap₂ (λ a n. row_after (a + n) (print_frames f false shms)) back (frame-newlines f shm h)
            ∙ y,
      )

  -- Where numbers are written without a new line, every frame of the shared memory begins in the
  -- row of the first, so that the table stays in its place, and the cursor ends behind its five
  -- lines.
  pub print_frames-StartsAt :
      (f : Format F) (shm : ShmMsgs F) (shms : List (ShmMsgs F)) (r : ℕ)
      → IsInline f
      → let out = print_frames f true (shm ∷ shms) in
        StartsAt r r out × (row_after r out ≡ r + print_lines)
  unfolding print_frames
  print_frames-StartsAt f shm shms r h =
      let (x, y) = later_frames f shms r h in
      (
        rw (frame-newlines f shm h) (refl, x),
        ap (λ n. row_after (r + n) (print_frames f false shms)) (frame-newlines f shm h) ∙ y,
      )

  -- The status line of the arm's printer stays in its row.
  pub print_data-StartsAt :
      (f : Format F) (shms : List (ShmMsgs F)) (r : ℕ)
      → IsInline f
      → StartsAt r r (print_data f shms) × (row_after r (print_data f shms) ≡ r)
  unfolding print_data
  print_data-StartsAt f [] r h = (tt, refl)
  print_data-StartsAt f (shm ∷ shms) r h =
      let same : r + 0 ≡ r = omega arith in
      let (x, y) = print_data-StartsAt f shms r h in
      (
        rw (data_line-newlines f shm h, same) (refl, x),
        ap (λ n. row_after (r + n) (print_data f shms)) (data_line-newlines f shm h)
            ∙ (ap (λ n. row_after n (print_data f shms)) same ∙ y),
      )
