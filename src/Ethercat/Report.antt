-- ===== src/Ethercat/Report.antt =====
-- src/Ethercat_setting.cpp: `print_fingertip_pose` and `print_tx_status_and_target`, two aids that
-- nothing calls. How printf writes numbers is a parameter.
use franka_kistar_r_exp_gwb.Common.{
  ℕ, ◌+◌, ◌*◌, ◌≡◌, refl, Option, none, some, List, [], ◌∷◌, ◌++◌, tabulate, get_or, concat, Array,
}
use franka_kistar_r_exp_gwb.Common.Int.{pos}
use franka_kistar_r_exp_gwb.Shm.{ShmMsgs, hand_num, hand_dof, finger_num}
use franka_kistar_r_exp_gwb.Logger.File.{codes}
use franka_kistar_r_exp_gwb.Printer.{Format, separated}
use franka_kistar_r_exp_gwb.Printer.Place.{newlines, newlines-append, separated-newlines, IsInline}
use franka_kistar_r_exp_gwb.Ethercat.Pdo.{word, to_int16}

abbrev pub finger_name : ℕ → List ℕ
finger_name i = get_or (codes "THUMB" ∷ codes "INDEX" ∷ codes "MIDDLE" ∷ codes "RING" ∷ []) i []

module _ {F : Type 0} where
  unfoldable pub fingertip_line : Format F → ShmMsgs F → ℕ → ℕ → List ℕ
  fingertip_line f shm hand i = concat (
      finger_name i
      ∷ codes " p=["
      ∷ separated (codes " ") f.real (tabulate 3 (shm.tip_pos hand i))
      ∷ codes "] q(wxyz)=["
      ∷ separated (codes " ") f.real (tabulate 4 (shm.tip_quat hand i))
      ∷ codes "]"
      ∷ (10 ∷ [])
      ∷ [])

  -- `none` is a null pointer.
  unfoldable pub print_fingertip_pose : Format F → Option (ShmMsgs F) → List ℕ
  print_fingertip_pose f none = []
  print_fingertip_pose f (some shm) =
      (10 ∷ [])
      ++ (codes "=== Fingertip Pose (mount frame) ==="
          ++ ((10 ∷ [])
              ++ concat (
                  tabulate hand_num (λ hand.
                    concat (codes "[Hand " ∷ f.int (pos hand) ∷ codes "]" ∷ (10 ∷ []) ∷ [])
                    ++ concat (tabulate finger_num (fingertip_line f shm hand))))))

  -- `hex` is "%04X"; 13 is the carriage return.
  unfoldable pub print_tx_status_and_target : Format F → (ℕ → List ℕ) → ℕ → Array ℕ → List ℕ
  print_tx_status_and_target f hex hand_idx tx = concat (
      (13 ∷ [])
      ∷ codes "[H"
      ∷ f.int (pos hand_idx)
      ∷ codes "] status1=0x"
      ∷ hex (word tx 0)
      ∷ codes " status2=0x"
      ∷ hex (word tx 1)
      ∷ codes " joint_target=["
      ∷ separated (codes ",") f.int (tabulate hand_dof (λ i. to_int16 (word tx (2 + i))))
      ∷ codes "]    "
      ∷ [])

  -- A pose takes its own line, under a line for its hand, a heading and an empty line.
  print_fingertip_pose-newlines :
      (f : Format F) (shm : ShmMsgs F)
      → IsInline f
      → newlines (print_fingertip_pose f (some shm)) ≡ 2 + hand_num * (1 + finger_num)
  unfolding print_fingertip_pose fingertip_line
  print_fingertip_pose-newlines f shm (a, b, c) =
      simp (newlines-append, separated-newlines (codes " ") f.real refl a, b (pos 0))

  -- The status stays within its line, which the next one overwrites.
  print_tx_status_and_target-newlines :
      (f : Format F) (hex : ℕ → List ℕ) (hand_idx : ℕ) (tx : Array ℕ)
      → IsInline f
      → ((n : ℕ) → newlines (hex n) ≡ 0)
      → newlines (print_tx_status_and_target f hex hand_idx tx) ≡ 0
  unfolding print_tx_status_and_target
  print_tx_status_and_target-newlines f hex hand_idx tx (a, b, c) h =
      simp (newlines-append, separated-newlines (codes ",") f.int refl b, b (pos hand_idx), h)
