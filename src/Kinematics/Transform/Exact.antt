-- ===== src/Kinematics/Transform/Exact.antt =====
-- The transforms of src/fk_solver.cpp as maps of points, in exact arithmetic: rounding is left
-- aside, and the numbers form a commutative ring in which sine and cosine lie on the unit circle.
use franka_kistar_r_exp_gwb.Common.{◌≡◌, sym, ap, ap₂, ◌∙◌}
use franka_kistar_r_exp_gwb.Double.{Double, nought, one}
use franka_kistar_r_exp_gwb.Kinematics.Transform.{Maths, ◌⊕◌, ◌⊖◌, ◌⊗◌}

pub record IsExact (F : Type 0) ⦃d : Double F⦄ ⦃m : Maths F⦄ : Type 0 where
  pub add_assoc : (a b c : F) → a ⊕ b ⊕ c ≡ a ⊕ (b ⊕ c)
  pub add_comm : (a b : F) → a ⊕ b ≡ b ⊕ a
  pub add-zero : (a : F) → a ⊕ nought ≡ a
  pub add-neg : (a : F) → a ⊕ m.neg a ≡ nought
  pub sub-eq : (a b : F) → a ⊖ b ≡ a ⊕ m.neg b
  pub mul_assoc : (a b c : F) → a ⊗ b ⊗ c ≡ a ⊗ (b ⊗ c)
  pub mul_comm : (a b : F) → a ⊗ b ≡ b ⊗ a
  pub mul-one : (a : F) → a ⊗ one ≡ a
  pub mul-add : (a b c : F) → a ⊗ (b ⊕ c) ≡ a ⊗ b ⊕ a ⊗ c
  pub cos-sin : (q : F) → m.cos q ⊗ m.cos q ⊕ m.sin q ⊗ m.sin q ≡ one

module _ {F : Type 0} ⦃d : Double F⦄ ⦃m : Maths F⦄ ⦃h : IsExact F⦄ where
  -- The laws by their names, for the ruleset.
  pub add_assoc : (a b c : F) → a ⊕ b ⊕ c ≡ a ⊕ (b ⊕ c)
  add_assoc = h.add_assoc

  pub add_comm : (a b : F) → a ⊕ b ≡ b ⊕ a
  add_comm = h.add_comm

  pub add-zero : (a : F) → a ⊕ nought ≡ a
  add-zero = h.add-zero

  pub sub-eq : (a b : F) → a ⊖ b ≡ a ⊕ m.neg b
  sub-eq = h.sub-eq

  pub mul_assoc : (a b c : F) → a ⊗ b ⊗ c ≡ a ⊗ (b ⊗ c)
  mul_assoc = h.mul_assoc

  pub mul_comm : (a b : F) → a ⊗ b ≡ b ⊗ a
  mul_comm = h.mul_comm

  pub mul-one : (a : F) → a ⊗ one ≡ a
  mul-one = h.mul-one

  pub mul-add : (a b c : F) → a ⊗ (b ⊕ c) ≡ a ⊗ b ⊕ a ⊗ c
  mul-add = h.mul-add

  pub zero-add : (a : F) → nought ⊕ a ≡ a
  zero-add a = h.add_comm nought a ∙ h.add-zero a

  pub one-mul : (a : F) → one ⊗ a ≡ a
  one-mul a = h.mul_comm one a ∙ h.mul-one a

  pub add-mul : (a b c : F) → (a ⊕ b) ⊗ c ≡ a ⊗ c ⊕ b ⊗ c
  add-mul a b c =
      h.mul_comm (a ⊕ b) c
      ∙ (h.mul-add c a b ∙ ap₂ (λ x y. x ⊕ y) (h.mul_comm c a) (h.mul_comm c b))

  pub add_left_comm : (a b c : F) → a ⊕ (b ⊕ c) ≡ b ⊕ (a ⊕ c)
  add_left_comm a b c = rw (← h.add_assoc a b c, h.add_comm a b) (h.add_assoc b a c)

  pub mul_left_comm : (a b c : F) → a ⊗ (b ⊗ c) ≡ b ⊗ (a ⊗ c)
  mul_left_comm a b c = rw (← h.mul_assoc a b c, h.mul_comm a b) (h.mul_assoc b a c)

  -- What adds up to nothing is the negative.
  neg_unique : (a b : F) → a ⊕ b ≡ nought → b ≡ m.neg a
  neg_unique a b e =
      sym (zero-add b)
      ∙ (ap (λ x. x ⊕ b) (sym (h.add-neg a))
          ∙ (h.add_assoc a (m.neg a) b
              ∙ (add_left_comm a (m.neg a) b ∙ (ap (λ x. m.neg a ⊕ x) e ∙ h.add-zero (m.neg a)))))

  add_cancel : (a b : F) → a ⊕ b ≡ a → b ≡ nought
  add_cancel a b e =
      sym (zero-add b)
      ∙ (ap (λ x. x ⊕ b) (sym (h.add-neg a))
          ∙ (h.add_assoc a (m.neg a) b
              ∙ (add_left_comm a (m.neg a) b
                  ∙ (ap (λ x. m.neg a ⊕ x) e ∙ (h.add_comm (m.neg a) a ∙ h.add-neg a)))))

  pub mul-zero : (a : F) → a ⊗ nought ≡ nought
  mul-zero a =
      add_cancel (a ⊗ nought) (a ⊗ nought)
        (sym (h.mul-add a nought nought) ∙ ap (λ x. a ⊗ x) (h.add-zero nought))

  pub zero-mul : (a : F) → nought ⊗ a ≡ nought
  zero-mul a = h.mul_comm nought a ∙ mul-zero a

  pub mul-neg : (a b : F) → a ⊗ m.neg b ≡ m.neg (a ⊗ b)
  mul-neg a b =
      neg_unique (a ⊗ b) (a ⊗ m.neg b)
        (sym (h.mul-add a b (m.neg b)) ∙ (ap (λ x. a ⊗ x) (h.add-neg b) ∙ mul-zero a))

  pub neg-mul : (a b : F) → m.neg a ⊗ b ≡ m.neg (a ⊗ b)
  neg-mul a b = h.mul_comm (m.neg a) b ∙ (mul-neg b a ∙ ap (λ x. m.neg x) (h.mul_comm b a))

  pub neg-neg : (a : F) → m.neg (m.neg a) ≡ a
  neg-neg a = sym (neg_unique (m.neg a) a (h.add_comm (m.neg a) a ∙ h.add-neg a))

  pub neg_zero : m.neg nought ≡ nought
  neg_zero = sym (neg_unique nought nought (h.add-zero nought))

  pub neg-add : (a b : F) → m.neg (a ⊕ b) ≡ m.neg a ⊕ m.neg b
  neg-add a b = sym (
      neg_unique (a ⊕ b) (m.neg a ⊕ m.neg b) (
        h.add_assoc a b (m.neg a ⊕ m.neg b)
        ∙ (ap (λ x. a ⊕ x) (add_left_comm b (m.neg a) (m.neg b))
            ∙ (ap (λ x. a ⊕ (m.neg a ⊕ x)) (h.add-neg b)
                ∙ (ap (λ x. a ⊕ x) (h.add-zero (m.neg a)) ∙ h.add-neg a)))))

  pub add-neg : (a : F) → a ⊕ m.neg a ≡ nought
  add-neg = h.add-neg

  pub add-neg_left : (a b : F) → a ⊕ (m.neg a ⊕ b) ≡ b
  add-neg_left a b = sym (h.add_assoc a (m.neg a) b) ∙ (ap (λ x. x ⊕ b) (h.add-neg a) ∙ zero-add b)

pub ruleset ring_laws = (
  add_assoc, add_comm, add_left_comm, mul_assoc, mul_comm, mul_left_comm, mul-add, add-mul, sub-eq,
  mul-neg, neg-mul, neg-neg, neg-add, neg_zero, add-zero, zero-add, mul-zero, zero-mul, mul-one,
  one-mul, add-neg, add-neg_left,
)

pub ruleset add_laws = (add_assoc, add_comm, add_left_comm)
