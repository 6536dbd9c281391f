-- ===== src/Double/Laws.antt =====
-- The interface to `double`, and the laws of IEEE 754 that the proofs use.
use franka_kistar_r_exp_gwb.Common.{ℕ, ◌+◌, ◌≤◌, ◌≡◌, Bool, true, false, not}
use franka_kistar_r_exp_gwb.Common.Int.{ℤ, pos, negsuc, pos_part, neg_part, ◌≤ℤ◌}

-- `of_nano m` is the double nearest to m * 10^-9: every decimal constant of the code has this form.
-- `of_int` converts an integer, `to_float` rounds to a `float`, whose value is again a double.
pub record Double (F : Type 0) : Type 0 where
  pub of_nano : ℤ → F
  pub of_int : ℤ → F
  pub to_float : F → F
  pub lt : F → F → Bool
  pub le : F → F → Bool
  pub is_finite : F → Bool
  pub abs : F → F
  pub add : F → F → F
  pub sub : F → F → F
  pub mul : F → F → F
  pub div : F → F → F

infix 50 ◌≼◌ ◌≺◌
abbrev pub ◌≼◌ : {F : Type 0} ⦃d : Double F⦄ → F → F → Type 0
◌≼◌ ⦃d⦄ x y = d.le x y ≡ true

abbrev pub ◌≺◌ : {F : Type 0} ⦃d : Double F⦄ → F → F → Type 0
◌≺◌ ⦃d⦄ x y = d.lt x y ≡ true

abbrev pub IsFinite : {F : Type 0} ⦃d : Double F⦄ → F → Type 0
IsFinite ⦃d⦄ x = d.is_finite x ≡ true

-- 0.0, 1.0 and 1000.0, the last a bound far from overflow
abbrev pub nought : {F : Type 0} ⦃d : Double F⦄ → F
nought ⦃d⦄ = d.of_nano (pos 0)

abbrev pub one : {F : Type 0} ⦃d : Double F⦄ → F
one ⦃d⦄ = d.of_nano (pos 1_000_000_000)

abbrev pub large : ℕ
large = 1_000_000_000_000

-- |x| <= 1000
abbrev pub IsModest : {F : Type 0} ⦃d : Double F⦄ → F → Type 0
IsModest ⦃d⦄ x =
    (d.le (d.of_nano (negsuc 999_999_999_999)) x ≡ true) × (d.le x (d.of_nano (pos large)) ≡ true)

-- A comparison with NaN is false, and finite numbers are totally ordered. Rounding is monotone: it
-- keeps the order of exact results, and keeps them on their side of a number that is a double.
pub record IsIeee (F : Type 0) ⦃d : Double F⦄ : Type 0 where
  pub le_trans : (x y z : F) → x ≼ y → y ≼ z → x ≼ z
  pub lt-eq-not-le : (x y : F) → IsFinite x → IsFinite y → d.lt x y ≡ not (d.le y x)
  pub le_of_lt : (x y : F) → x ≺ y → x ≼ y
  pub lt_of_le_lt : (x y z : F) → x ≼ y → y ≺ z → x ≺ z
  pub lt_irrefl : (x : F) → d.lt x x ≡ false
  pub le_refl : (x : F) → IsFinite x → x ≼ x
  pub of_nano-finite : (m : ℤ) → pos_part m + neg_part m ≤ large → IsFinite (d.of_nano m)
  pub of_nano_mono : (m n : ℤ) → m ≤ℤ n → d.of_nano m ≼ d.of_nano n
  pub zero-le-sub : (x y : F) → IsFinite x → IsFinite y → x ≼ y → nought ≼ d.sub y x
  pub sub-le-zero : (x y : F) → IsFinite x → IsFinite y → x ≼ y → d.sub x y ≼ nought
  pub sub-le-sub : (x y z : F) → IsFinite z → x ≼ y → d.sub x z ≼ d.sub y z
  pub sub-finite : (x y : F) → nought ≼ x → x ≼ y → IsFinite y → IsFinite (d.sub y x)
  pub sub-finite_modest : (x y : F) → IsModest x → IsModest y → IsFinite (d.sub x y)
  pub abs_sub_self : (x : F) → IsFinite x → d.abs (d.sub x x) ≼ nought
  pub add_mono : (x y z : F) → IsFinite z → x ≼ y → d.add z x ≼ d.add z y
  pub add_zero_le : (z : F) → IsFinite z → d.add z nought ≼ z
  pub le-add_zero : (z : F) → IsFinite z → z ≼ d.add z nought
  -- x + (y - x) misses y by less than 10^-9: both roundings are below 2 ^ -42 for modest numbers.
  pub add-sub_upper :
      (x y : F) → IsModest x → IsModest y → d.add x (d.sub y x) ≼ d.add y (d.of_nano (pos 1))
  pub add-sub_lower :
      (x y : F) → IsModest x → IsModest y → d.sub y (d.of_nano (pos 1)) ≼ d.add x (d.sub y x)
  pub zero-le-div : (n k : F) → IsFinite n → nought ≼ n → nought ≺ k → nought ≼ d.div n k
  pub div-le-zero : (n k : F) → IsFinite n → n ≼ nought → nought ≺ k → d.div n k ≼ nought
  pub div-le-one : (n k : F) → IsFinite n → n ≼ k → nought ≺ k → d.div n k ≼ one
  pub div-IsFinite_modest : (n k : F) → IsModest n → d.of_nano (pos 1) ≺ k → IsFinite (d.div n k)
  -- a * x lies between 0 and x for a in [0, 1]
  pub zero-le-mul : (a x : F) → nought ≼ a → a ≼ one → IsFinite x → nought ≼ x → nought ≼ d.mul a x
  pub mul-le-self : (a x : F) → nought ≼ a → a ≼ one → IsFinite x → nought ≼ x → d.mul a x ≼ x
  pub mul-le-zero : (a x : F) → nought ≼ a → a ≼ one → IsFinite x → x ≼ nought → d.mul a x ≼ nought
  pub self-le-mul : (a x : F) → nought ≼ a → a ≼ one → IsFinite x → x ≼ nought → x ≼ d.mul a x
  -- the sign of a product
  pub neg_mul-le :
      (a x : F) → IsFinite a → a ≼ nought → IsFinite x → nought ≼ x → d.mul a x ≼ nought
  pub le-neg_mul :
      (a x : F) → IsFinite a → a ≼ nought → IsFinite x → x ≼ nought → nought ≼ d.mul a x
