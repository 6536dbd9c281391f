-- ===== src/Bridge/Trajectory/Names.antt =====
-- How `on_franka_trajectory` (ros2/kistar_hand_bridge/src/kistar_hand_bridge_node.cpp) assigns the
-- message's columns to the joints.
use Prim.Native.String.{String}
use text.Mathlib.TextEquality.{eq_iff}
use franka_kistar_r_exp_gwb.Common.{
  ℕ, ◌<◌, ◌≡◌, ap, sym, ◌∙◌, true-ne-false, true, false, not, none, some, List, arith, for_all,
  for_all_sound, for_all_complete, find_first-some, find_first-none, length, get_or, Bool-cases,
  Option-cases, inl, inr,
}
use franka_kistar_r_exp_gwb.Shm.{arm_dof}
use franka_kistar_r_exp_gwb.Bridge.Trajectory.{
  joint_order, is_joint, resolve, is_resolved, use_positional, joint_index,
}

-- The message names the joint `j` of the arm.
abbrev pub Names : List String → ℕ → Type 0
Names names j = (k : ℕ) × (k < length names) × (get_or names k "" ≡ get_or joint_order j "")

resolve-some :
    (names : List String) (j : ℕ) {k : ℕ}
    → resolve names j ≡ some k
    → (k < length names) × (get_or names k "" ≡ get_or joint_order j "")
unfolding resolve
resolve-some names j {k} e =
    let (_, l, same) = find_first-some (length names) 0 (is_joint names j) {k = k} e in
    (omega arith, (eq_iff (get_or names k "") (get_or joint_order j "")).0 same)

resolve-none : (names : List String) (j : ℕ) → resolve names j ≡ none → ¬ Names names j
unfolding resolve
resolve-none names j e (k, l, same) =
    let miss =
      find_first-none (length names) 0 (is_joint names j) e k (omega arith) (omega arith) in
    true-ne-false (sym ((eq_iff (get_or names k "") (get_or joint_order j "")).1 same) ∙ miss)

-- The search by name has found the joint.
resolved-Names :
    (names : List String) (j : ℕ) → is_resolved (resolve names j) ≡ true → Names names j
resolved-Names names j h = elim (Option-cases (resolve names j)) [
  | inl e ↦ absurd (true-ne-false (sym h ∙ ap is_resolved e))
  | inr (k, e) ↦ let (l, same) = resolve-some names j {k = k} e in (k, l, same)
]

Names-resolved :
    (names : List String) (j : ℕ) → Names names j → is_resolved (resolve names j) ≡ true
Names-resolved names j n = elim (Option-cases (resolve names j)) [
  | inl e ↦ absurd (resolve-none names j e n)
  | inr (k, e) ↦ ap is_resolved e
]

index_resolved :
    (names : List String) (j : ℕ)
    → use_positional names ≡ false
    → is_resolved (resolve names j) ≡ true
    → (joint_index names j < length names)
      × (get_or names (joint_index names j) "" ≡ get_or joint_order j "")
unfolding joint_index
index_resolved names j h r = elim (Option-cases (resolve names j)) [
  | inl e ↦ absurd (true-ne-false (sym r ∙ ap is_resolved e))
  | inr (k, e) ↦ rw (h, e, joint_index) (resolve-some names j {k = k} e)
]

-- If the message names all seven joints, in any order and among others, each joint takes a column
-- that carries its name.
pub joint_index_named :
    (names : List String)
    → ((j : ℕ) → j < arm_dof → Names names j)
    → (j : ℕ) → j < arm_dof
    → (joint_index names j < length names)
      × (get_or names (joint_index names j) "" ≡ get_or joint_order j "")
unfolding use_positional
joint_index_named names h j l =
    let all =
      for_all_complete arm_dof 0 (λ i. is_resolved (resolve names i))
        λ k _ m. Names-resolved names k (h k m) in
    index_resolved names j (ap not all) (Names-resolved names j (h j l))

-- If it leaves out one of them, the columns are taken by position, whatever the other names are.
pub joint_index_positional :
    (names : List String) (missing : ℕ)
    → missing < arm_dof
    → ¬ Names names missing
    → (j : ℕ) → joint_index names j ≡ j
unfolding joint_index use_positional
joint_index_positional names missing l out j =
    elim (Bool-cases (for_all arm_dof 0 (λ i. is_resolved (resolve names i)))) [
      | inl all ↦ absurd (
          out (
            resolved-Names names missing (
              for_all_sound arm_dof 0 (λ i. is_resolved (resolve names i)) all missing (omega arith)
                l)))
      | inr h ↦ rw h
    ]
