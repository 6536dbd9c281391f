-- ===== src/Kinematics/Quaternion/Inverse/Sums.antt =====
-- The matrix of the rotation by a quaternion, and the sums and differences that
-- `rotmat_to_quat_wxyz` (src/fk_solver.cpp) takes of it, in exact arithmetic.
use franka_kistar_r_exp_gwb.Common.{zero, suc, ◌≡◌, sym, ap, ap₂, ◌∙◌, Array}
use franka_kistar_r_exp_gwb.Double.{Double, nought, one}
use franka_kistar_r_exp_gwb.Kinematics.Transform.{Maths, ◌⊕◌, ◌⊖◌, ◌⊗◌}
use franka_kistar_r_exp_gwb.Kinematics.Transform.Exact.{
  IsExact, ring_laws, add_assoc, add_comm, add_left_comm, add-neg, add-neg_left, add-zero,
}
use franka_kistar_r_exp_gwb.Kinematics.Quaternion.{Quaternion}

module _ {F : Type 0} ⦃d : Double F⦄ ⦃m : Maths F⦄ where
  abbrev pub twice : F → F
  twice a = a ⊕ a

  abbrev pub fourfold : F → F
  fourfold a = twice (twice a)

  -- The matrix of the rotation by the quaternion.
  abbrev pub rotation_of : Quaternion F → Array (Array F)
  rotation_of q i j =
      let ww = q.w ⊗ q.w in
      let xx = q.x ⊗ q.x in
      let yy = q.y ⊗ q.y in
      let zz = q.z ⊗ q.z in
      elim i [
        | zero ↦ elim j [
          | zero ↦ ww ⊕ xx ⊖ yy ⊖ zz
          | suc zero ↦ twice (q.x ⊗ q.y ⊖ q.w ⊗ q.z)
          | suc (suc _) ↦ twice (q.x ⊗ q.z ⊕ q.w ⊗ q.y)
        ]
        | suc zero ↦ elim j [
          | zero ↦ twice (q.x ⊗ q.y ⊕ q.w ⊗ q.z)
          | suc zero ↦ ww ⊖ xx ⊕ yy ⊖ zz
          | suc (suc _) ↦ twice (q.y ⊗ q.z ⊖ q.w ⊗ q.x)
        ]
        | suc (suc _) ↦ elim j [
          | zero ↦ twice (q.x ⊗ q.z ⊖ q.w ⊗ q.y)
          | suc zero ↦ twice (q.y ⊗ q.z ⊕ q.w ⊗ q.x)
          | suc (suc _) ↦ ww ⊖ xx ⊖ yy ⊕ zz
        ]
      ]

  abbrev pub IsUnit : Quaternion F → Type 0
  IsUnit q = q.w ⊗ q.w ⊕ q.x ⊗ q.x ⊕ q.y ⊗ q.y ⊕ q.z ⊗ q.z ≡ one

  -- What the code adds and subtracts of the matrix, in terms of the quaternion.
  pub record HasSums (r : Array (Array F)) (q : Quaternion F) : Type 0 where
    pub ww : r 0 0 ⊕ r 1 1 ⊕ r 2 2 ⊕ one ≡ fourfold (q.w ⊗ q.w)
    pub xx : one ⊕ r 0 0 ⊖ r 1 1 ⊖ r 2 2 ≡ fourfold (q.x ⊗ q.x)
    pub yy : one ⊕ r 1 1 ⊖ r 0 0 ⊖ r 2 2 ≡ fourfold (q.y ⊗ q.y)
    pub zz : one ⊕ r 2 2 ⊖ r 0 0 ⊖ r 1 1 ≡ fourfold (q.z ⊗ q.z)
    pub wx : r 2 1 ⊖ r 1 2 ≡ fourfold (q.w ⊗ q.x)
    pub wy : r 0 2 ⊖ r 2 0 ≡ fourfold (q.w ⊗ q.y)
    pub wz : r 1 0 ⊖ r 0 1 ≡ fourfold (q.w ⊗ q.z)
    pub xy : r 0 1 ⊕ r 1 0 ≡ fourfold (q.x ⊗ q.y)
    pub xz : r 0 2 ⊕ r 2 0 ≡ fourfold (q.x ⊗ q.z)
    pub yz : r 1 2 ⊕ r 2 1 ≡ fourfold (q.y ⊗ q.z)

module _ {F : Type 0} ⦃d : Double F⦄ ⦃m : Maths F⦄ ⦃h : IsExact F⦄ where
  -- What is added and taken away again.
  cancel : (a s : F) → a ⊕ (s ⊕ m.neg a) ≡ s
  cancel a s = ap (λ x. a ⊕ x) (add_comm s (m.neg a)) ∙ add-neg_left a s

  cancel_in : (a s r : F) → a ⊕ (s ⊕ (m.neg a ⊕ r)) ≡ s ⊕ r
  cancel_in a s r = ap (λ x. a ⊕ x) (add_left_comm s (m.neg a) r) ∙ add-neg_left a (s ⊕ r)

  cancel_3 : (b c e : F) → b ⊕ (c ⊕ (e ⊕ (m.neg b ⊕ (m.neg c ⊕ m.neg e)))) ≡ nought
  cancel_3 b c e =
      ap (λ x. b ⊕ (c ⊕ x)) (add_left_comm e (m.neg b) (m.neg c ⊕ m.neg e))
      ∙ cancel_in b c (e ⊕ (m.neg c ⊕ m.neg e))
      ∙ cancel_in c e (m.neg e)
      ∙ add-neg e

  sum : (p q : F) → p ⊖ q ⊕ (p ⊕ q) ≡ twice p
  sum p q = simp ring_laws

  difference : (p q : F) → p ⊕ q ⊖ (p ⊖ q) ≡ twice q
  difference p q =
      simp ring_laws (ap (λ x. p ⊕ x) (sym (add_assoc q q (m.neg p))) ∙ cancel p (q ⊕ q))

  twice-sub : (u v : F) → twice u ⊖ twice v ≡ twice (u ⊖ v)
  twice-sub u v = simp ring_laws

  twice-add : (u v : F) → twice u ⊕ twice v ≡ twice (u ⊕ v)
  twice-add u v = simp ring_laws

  difference_twice : (p q : F) → twice (p ⊕ q) ⊖ twice (p ⊖ q) ≡ fourfold q
  difference_twice p q = twice-sub (p ⊕ q) (p ⊖ q) ∙ ap (λ x. twice x) (difference p q)

  sum_twice : (p q : F) → twice (p ⊖ q) ⊕ twice (p ⊕ q) ≡ fourfold p
  sum_twice p q = twice-add (p ⊖ q) (p ⊕ q) ∙ ap (λ x. twice x) (sum p q)

  -- The sum of the diagonal and one, for the squares of a unit quaternion.
  sum_4 :
      (a b c e : F)
      → a ⊕ b ⊖ c ⊖ e ⊕ (a ⊖ b ⊕ c ⊖ e) ⊕ (a ⊖ b ⊖ c ⊕ e) ⊕ (a ⊕ b ⊕ c ⊕ e) ≡ fourfold a
  sum_4 a b c e = simp ring_laws (
      ap (λ x. a ⊕ (a ⊕ (a ⊕ (a ⊕ x)))) (cancel_3 b c e) ∙ ap (λ x. a ⊕ (a ⊕ (a ⊕ x))) (add-zero a))

  sum_pair : (a b c e : F) → a ⊕ b ⊕ c ⊕ e ⊕ (a ⊕ b ⊖ c ⊖ e) ≡ twice (a ⊕ b)
  sum_pair a b c e = simp ring_laws (
      ap (λ x. a ⊕ (a ⊕ (b ⊕ (b ⊕ x)))) (cancel_in c e (m.neg e) ∙ add-neg e)
      ∙ ap (λ x. a ⊕ (a ⊕ (b ⊕ x))) (add-zero b))

  difference_pair : (a b c e : F) → a ⊖ b ⊕ c ⊖ e ⊕ (a ⊖ b ⊖ c ⊕ e) ≡ twice (a ⊖ b)
  difference_pair a b c e = shape ∙ sum (a ⊖ b) (e ⊖ c)
    where
      shape : a ⊖ b ⊕ c ⊖ e ⊕ (a ⊖ b ⊖ c ⊕ e) ≡ a ⊖ b ⊖ (e ⊖ c) ⊕ (a ⊖ b ⊕ (e ⊖ c))
      shape = simp ring_laws

  sub-sub : (x y z : F) → x ⊖ y ⊖ z ≡ x ⊖ (y ⊕ z)
  sub-sub x y z = simp ring_laws

  -- One and a diagonal element less the other two.
  sum_x :
      (a b c e : F)
      → a ⊕ b ⊕ c ⊕ e ⊕ (a ⊕ b ⊖ c ⊖ e) ⊖ (a ⊖ b ⊕ c ⊖ e) ⊖ (a ⊖ b ⊖ c ⊕ e) ≡ fourfold b
  sum_x a b c e =
      sub-sub _ _ _
      ∙ ap₂ (λ x y. x ⊖ y) (sum_pair a b c e) (difference_pair a b c e)
      ∙ difference_twice a b

  sum_y :
      (a b c e : F)
      → a ⊕ b ⊕ c ⊕ e ⊕ (a ⊖ b ⊕ c ⊖ e) ⊖ (a ⊕ b ⊖ c ⊖ e) ⊖ (a ⊖ b ⊖ c ⊕ e) ≡ fourfold c
  sum_y a b c e = shape ∙ sum_x a c b e
    where
      shape :
          a ⊕ b ⊕ c ⊕ e ⊕ (a ⊖ b ⊕ c ⊖ e) ⊖ (a ⊕ b ⊖ c ⊖ e) ⊖ (a ⊖ b ⊖ c ⊕ e)
          ≡ a ⊕ c ⊕ b ⊕ e ⊕ (a ⊕ c ⊖ b ⊖ e) ⊖ (a ⊖ c ⊕ b ⊖ e) ⊖ (a ⊖ c ⊖ b ⊕ e)
      shape = simp ring_laws

  sum_z :
      (a b c e : F)
      → a ⊕ b ⊕ c ⊕ e ⊕ (a ⊖ b ⊖ c ⊕ e) ⊖ (a ⊕ b ⊖ c ⊖ e) ⊖ (a ⊖ b ⊕ c ⊖ e) ≡ fourfold e
  sum_z a b c e = shape ∙ sum_x a e b c
    where
      shape :
          a ⊕ b ⊕ c ⊕ e ⊕ (a ⊖ b ⊖ c ⊕ e) ⊖ (a ⊕ b ⊖ c ⊖ e) ⊖ (a ⊖ b ⊕ c ⊖ e)
          ≡ a ⊕ e ⊕ b ⊕ c ⊕ (a ⊕ e ⊖ b ⊖ c) ⊖ (a ⊖ e ⊕ b ⊖ c) ⊖ (a ⊖ e ⊖ b ⊕ c)
      shape = simp ring_laws

  pub square_twice : (a : F) → twice a ⊗ twice a ≡ fourfold (a ⊗ a)
  square_twice a = simp ring_laws

  pub first : (a b : F) → fourfold (a ⊗ b) ≡ a ⊗ fourfold b
  first a b = simp ring_laws

  pub second : (a b : F) → fourfold (a ⊗ b) ≡ b ⊗ fourfold a
  second a b = simp ring_laws

  pub rotation_of-HasSums : (q : Quaternion F) → IsUnit q → HasSums (rotation_of q) q
  rotation_of-HasSums q unit =
      let ww = q.w ⊗ q.w in
      let xx = q.x ⊗ q.x in
      let yy = q.y ⊗ q.y in
      let zz = q.z ⊗ q.z in
      record {
        ww =
            ap (λ o. ww ⊕ xx ⊖ yy ⊖ zz ⊕ (ww ⊖ xx ⊕ yy ⊖ zz) ⊕ (ww ⊖ xx ⊖ yy ⊕ zz) ⊕ o) (sym unit)
            ∙ sum_4 ww xx yy zz;
        xx =
            ap (λ o. o ⊕ (ww ⊕ xx ⊖ yy ⊖ zz) ⊖ (ww ⊖ xx ⊕ yy ⊖ zz) ⊖ (ww ⊖ xx ⊖ yy ⊕ zz)) (sym unit)
            ∙ sum_x ww xx yy zz;
        yy =
            ap (λ o. o ⊕ (ww ⊖ xx ⊕ yy ⊖ zz) ⊖ (ww ⊕ xx ⊖ yy ⊖ zz) ⊖ (ww ⊖ xx ⊖ yy ⊕ zz)) (sym unit)
            ∙ sum_y ww xx yy zz;
        zz =
            ap (λ o. o ⊕ (ww ⊖ xx ⊖ yy ⊕ zz) ⊖ (ww ⊕ xx ⊖ yy ⊖ zz) ⊖ (ww ⊖ xx ⊕ yy ⊖ zz)) (sym unit)
            ∙ sum_z ww xx yy zz;
        wx = difference_twice (q.y ⊗ q.z) (q.w ⊗ q.x);
        wy = difference_twice (q.x ⊗ q.z) (q.w ⊗ q.y);
        wz = difference_twice (q.x ⊗ q.y) (q.w ⊗ q.z);
        xy = sum_twice (q.x ⊗ q.y) (q.w ⊗ q.z);
        xz = add_comm _ _ ∙ sum_twice (q.x ⊗ q.z) (q.w ⊗ q.y);
        yz = sum_twice (q.y ⊗ q.z) (q.w ⊗ q.x);
      }
