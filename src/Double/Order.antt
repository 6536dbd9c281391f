-- ===== src/Double/Order.antt =====
-- Consequences of the order's laws, for the tests `<` and `<=` of the code.
use franka_kistar_r_exp_gwb.Common.{◌≡◌, false, arith, ◌⊎◌, inl, inr, Bool-cases}
use franka_kistar_r_exp_gwb.Double.Laws.{Double, IsIeee, ◌≼◌, ◌≺◌, IsFinite}

module _ {F : Type 0} ⦃d : Double F⦄ (laws : IsIeee F) where
  open laws use {le_of_lt, lt-eq-not-le, lt_of_le_lt, le_refl}

  -- A finite number that is not below another is above it or equal.
  pub le_of_not_lt : (x y : F) → IsFinite x → IsFinite y → d.lt x y ≡ false → y ≼ x
  le_of_not_lt x y hx hy h = ground (arith, lt-eq-not-le x y hx hy)

  pub lt_of_not_le : (x y : F) → IsFinite x → IsFinite y → d.le y x ≡ false → x ≺ y
  lt_of_not_le x y hx hy h = ground (arith, lt-eq-not-le x y hx hy)

  pub not-lt_of_le : (x y : F) → IsFinite x → IsFinite y → y ≼ x → d.lt x y ≡ false
  not-lt_of_le x y hx hy h = ground (arith, lt-eq-not-le x y hx hy)

  pub not-le_of_lt : (x y : F) → IsFinite x → IsFinite y → x ≺ y → d.le y x ≡ false
  not-le_of_lt x y hx hy h = ground (arith, lt-eq-not-le x y hx hy)

  pub le_total : (x y : F) → IsFinite x → IsFinite y → (x ≼ y) ⊎ (y ≼ x)
  le_total x y hx hy = elim (Bool-cases (d.le x y)) [
    | inl h ↦ inl h
    | inr h ↦ inr (le_of_lt y x (lt_of_not_le y x hy hx h))
  ]
