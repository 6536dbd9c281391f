-- ===== src/Printer.antt =====
-- src/shm_print.cpp, and `data_print_thread` of src/franka_right_arm.cpp: what they write to the
-- terminal. How printf and iostreams write numbers is a parameter.
use franka_kistar_r_exp_gwb.Common.{
  ℕ, ◌+◌, ◌*◌, Bool, true, false, Option, none, some, List, [], ◌∷◌, ◌++◌, map, tabulate,
  if◌then◌else◌,
}
use franka_kistar_r_exp_gwb.Common.Int.{ℤ, pos, leb_ℤ}
use franka_kistar_r_exp_gwb.Shm.{ShmMsgs, arm_dof, hand_dof}
use franka_kistar_r_exp_gwb.Logger.File.{codes}
pub mod Place

-- `real` is "%.4f" or `<<` on a double, `int` is "%d", `count` is "%u".
pub record Format (F : Type 0) : Type 0 where
  pub real : F → List ℕ
  pub int : ℤ → List ℕ
  pub count : ℕ → List ℕ

-- Text, or the sequence that moves the cursor up.
pub data Output : Type 0 where
  text : List ℕ → Output
  up : ℕ → Output

abbrev pub print_lines : ℕ
print_lines = 5

abbrev pub default_interval_ms : ℕ
default_interval_ms = 100

abbrev pub end_line : List ℕ
end_line = codes "]" ++ (10 ∷ [])

-- The interval of the loop; `none` is a null pointer.
unfoldable pub interval_of : ℕ → Option ℤ → ℤ
interval_of default' none = pos default'
interval_of default' (some interval) = if leb_ℤ interval (pos 0) then pos default' else interval

-- What `f` writes of each, with a separator between two.
unfoldable pub separated : {A : Type 0} → List ℕ → (A → List ℕ) → List A → List ℕ
separated sep f [] = []
separated sep f (x ∷ []) = f x
separated sep f (x ∷ (y ∷ ys)) = f x ++ (sep ++ separated sep f (y ∷ ys))

abbrev pub numbers : {A : Type 0} → (A → List ℕ) → List A → List ℕ
numbers f xs = separated (codes ", ") f xs

module _ {F : Type 0} where
  unfoldable pub frame : Format F → ShmMsgs F → List ℕ
  frame f shm =
      codes "[SHM] Arm q   =["
      ++ (numbers f.real (tabulate arm_dof (shm.arm_j_pos 0))
          ++ (end_line
              ++ (codes "[SHM] Arm tar =["
                  ++ (numbers f.real (tabulate arm_dof (shm.arm_j_tar 0))
                      ++ (end_line
                          ++ (codes "[SHM] Hand j_pos=["
                              ++ (numbers f.int (tabulate hand_dof (shm.j_pos 0))
                                  ++ (end_line
                                      ++ (codes "[SHM] Hand j_tar=["
                                          ++ (numbers f.int (tabulate hand_dof (shm.j_tar 0))
                                              ++ (end_line
                                                  ++ (codes "[SHM] servo_on="
                                                      ++ (f.count (shm.servo_on 0)
                                                          ++ (codes "  hand_mode="
                                                            ++ (f.count (shm.hand_mode 0)
                                                            ++ (10 ∷ []))))))))))))))))

  -- The loop of `shm_print_thread`, with what the memory holds in each turn.
  unfoldable pub print_frames : Format F → Bool → List (ShmMsgs F) → List Output
  print_frames f first [] = []
  print_frames f true (shm ∷ shms) = text (frame f shm) ∷ print_frames f false shms
  print_frames f false (shm ∷ shms) =
      up print_lines ∷ text (frame f shm) ∷ print_frames f false shms

  -- The loop of `data_print_thread`; 13 is the carriage return.
  unfoldable pub data_line : Format F → ShmMsgs F → List ℕ
  data_line f shm =
      (13 ∷ [])
      ++ (codes "R_arm q[0..2]=["
          ++ (numbers f.real (tabulate 3 (shm.arm_j_pos 0))
              ++ (codes "] tau[0..2]=["
                  ++ (numbers f.real (tabulate 3 (shm.arm_j_tq 0))
                      ++ (codes "] Hand_j0=" ++ (f.int (shm.j_pos 0 0) ++ codes "   "))))))

  unfoldable pub print_data : Format F → List (ShmMsgs F) → List Output
  print_data f [] = []
  print_data f (shm ∷ shms) = text (data_line f shm) ∷ print_data f shms
