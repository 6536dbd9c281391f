-- ===== src/Double/Fixed.antt =====
-- Fixed-point numbers in units of 10^-9, with a NaN: a concrete type that meets the laws, on which
-- the definitions run. Products and quotients round toward zero.
use franka_kistar_r_exp_gwb.Common.{
  ℕ, suc, ◌+◌, ◌*◌, ◌/◌, ◌≤◌, ◌<◌, refl, Bool, true, false, arith, ◌==◌, if◌then◌else◌,
}
use franka_kistar_r_exp_gwb.Common.Int.{ℤ, pos, negsuc, pos_part, neg_part, sub_ℕ, ltb_ℤ, leb_ℤ}
use franka_kistar_r_exp_gwb.Double.Laws.{Double, IsIeee, ◌≼◌, ◌≺◌, IsFinite, IsModest, nought, one}

pub data Fixed : Type 0 where
  nan : Fixed
  fin : ℤ → Fixed

abbrev pub unit : ℕ
unit = 1_000_000_000

abbrev lift2 : (ℤ → ℤ → ℤ) → Fixed → Fixed → Fixed
lift2 f (fin a) (fin b) = fin (f a b)
lift2 f _ _ = nan

abbrev test2 : (ℤ → ℤ → Bool) → Fixed → Fixed → Bool
test2 f (fin a) (fin b) = f a b
test2 f _ _ = false

abbrev fixed_abs : Fixed → Fixed
fixed_abs nan = nan
fixed_abs (fin a) = fin (pos (pos_part a + neg_part a))

abbrev mul_ℤ : ℤ → ℤ → ℤ
mul_ℤ a b =
    sub_ℕ (pos_part a * pos_part b / unit + neg_part a * neg_part b / unit)
      (pos_part a * neg_part b / unit + neg_part a * pos_part b / unit)

abbrev fixed_div : Fixed → Fixed → Fixed
fixed_div (fin a) (fin (pos k)) =
    if k == 0 then nan else fin (sub_ℕ (pos_part a * unit / k) (neg_part a * unit / k))
fixed_div (fin a) (fin (negsuc k)) =
    fin (sub_ℕ (neg_part a * unit / suc k) (pos_part a * unit / suc k))
fixed_div _ _ = nan

instance abbrev pub fixed_double : Double Fixed
fixed_double = record {
  of_nano = fin;
  of_int = λ a. fin (sub_ℕ (pos_part a * unit) (neg_part a * unit));
  to_float = λ x. x;
  lt = test2 ltb_ℤ;
  le = test2 leb_ℤ;
  is_finite = λ x. elim x [ nan ↦ false | fin _ ↦ true ];
  abs = fixed_abs;
  add = lift2 (λ a b. sub_ℕ (pos_part a + pos_part b) (neg_part a + neg_part b));
  sub = lift2 (λ a b. sub_ℕ (pos_part a + neg_part b) (neg_part a + pos_part b));
  mul = lift2 mul_ℤ;
  div = fixed_div;
}

div-le_unit : (n k : ℕ) → n ≤ k → 0 < k → n * unit / k ≤ unit
div-le_unit n k h p = grind arith

mul-le_unit : (a x : ℕ) → a ≤ unit → a * x / unit ≤ x
mul-le_unit a x h = grind arith

-- The laws of products and quotients, by the signs of the factors.
zero-le-mul :
    (a x : Fixed) → nought ≼ a → a ≼ one → IsFinite x → nought ≼ x → nought ≼ fixed_double.mul a x
zero-le-mul nan x h k f p = cc
zero-le-mul (fin (negsuc a)) x h k f p = ground arith
zero-le-mul (fin (pos a)) nan h k f p = cc
zero-le-mul (fin (pos a)) (fin (pos x)) h k f p = ground (arith, mul-le_unit a x)
zero-le-mul (fin (pos a)) (fin (negsuc x)) h k f p = ground (arith, mul-le_unit a (suc x))

mul-le-self :
    (a x : Fixed) → nought ≼ a → a ≼ one → IsFinite x → nought ≼ x → fixed_double.mul a x ≼ x
mul-le-self nan x h k f p = cc
mul-le-self (fin (negsuc a)) x h k f p = ground arith
mul-le-self (fin (pos a)) nan h k f p = cc
mul-le-self (fin (pos a)) (fin (pos x)) h k f p = ground (arith, mul-le_unit a x)
mul-le-self (fin (pos a)) (fin (negsuc x)) h k f p = ground (arith, mul-le_unit a (suc x))

mul-le-zero :
    (a x : Fixed) → nought ≼ a → a ≼ one → IsFinite x → x ≼ nought → fixed_double.mul a x ≼ nought
mul-le-zero nan x h k f p = cc
mul-le-zero (fin (negsuc a)) x h k f p = ground arith
mul-le-zero (fin (pos a)) nan h k f p = cc
mul-le-zero (fin (pos a)) (fin (pos x)) h k f p = ground (arith, mul-le_unit a x)
mul-le-zero (fin (pos a)) (fin (negsuc x)) h k f p = ground (arith, mul-le_unit a (suc x))

self-le-mul :
    (a x : Fixed) → nought ≼ a → a ≼ one → IsFinite x → x ≼ nought → x ≼ fixed_double.mul a x
self-le-mul nan x h k f p = cc
self-le-mul (fin (negsuc a)) x h k f p = ground arith
self-le-mul (fin (pos a)) nan h k f p = cc
self-le-mul (fin (pos a)) (fin (pos x)) h k f p = ground (arith, mul-le_unit a x)
self-le-mul (fin (pos a)) (fin (negsuc x)) h k f p = ground (arith, mul-le_unit a (suc x))

neg_mul-le :
    (a x : Fixed)
    → IsFinite a
    → a ≼ nought
    → IsFinite x
    → nought ≼ x
    → fixed_double.mul a x ≼ nought
neg_mul-le nan x h k f p = cc
neg_mul-le (fin (pos a)) nan h k f p = cc
neg_mul-le (fin (pos a)) (fin (pos x)) h k f p = ground arith
neg_mul-le (fin (pos a)) (fin (negsuc x)) h k f p = ground arith
neg_mul-le (fin (negsuc a)) nan h k f p = cc
neg_mul-le (fin (negsuc a)) (fin (pos x)) h k f p = ground arith
neg_mul-le (fin (negsuc a)) (fin (negsuc x)) h k f p = ground arith

le-neg_mul :
    (a x : Fixed)
    → IsFinite a
    → a ≼ nought
    → IsFinite x
    → x ≼ nought
    → nought ≼ fixed_double.mul a x
le-neg_mul nan x h k f p = cc
le-neg_mul (fin (pos a)) nan h k f p = cc
le-neg_mul (fin (pos a)) (fin (pos x)) h k f p = ground arith
le-neg_mul (fin (pos a)) (fin (negsuc x)) h k f p = ground arith
le-neg_mul (fin (negsuc a)) nan h k f p = cc
le-neg_mul (fin (negsuc a)) (fin (pos x)) h k f p = ground arith
le-neg_mul (fin (negsuc a)) (fin (negsuc x)) h k f p = ground arith

zero-le-div : (a x : Fixed) → IsFinite a → nought ≼ a → nought ≺ x → nought ≼ fixed_double.div a x
zero-le-div nan x h k f = cc
zero-le-div (fin (pos a)) nan h k f = cc
zero-le-div (fin (pos a)) (fin (pos x)) h k f = ground (arith, div-le_unit a x)
zero-le-div (fin (pos a)) (fin (negsuc x)) h k f = ground arith
zero-le-div (fin (negsuc a)) nan h k f = cc
zero-le-div (fin (negsuc a)) (fin (pos x)) h k f = ground arith
zero-le-div (fin (negsuc a)) (fin (negsuc x)) h k f = ground arith

div-le-zero : (a x : Fixed) → IsFinite a → a ≼ nought → nought ≺ x → fixed_double.div a x ≼ nought
div-le-zero nan x h k f = cc
div-le-zero (fin (pos a)) nan h k f = cc
div-le-zero (fin (pos a)) (fin (pos x)) h k f = ground (arith, div-le_unit a x)
div-le-zero (fin (pos a)) (fin (negsuc x)) h k f = ground arith
div-le-zero (fin (negsuc a)) nan h k f = cc
div-le-zero (fin (negsuc a)) (fin (pos x)) h k f = ground arith
div-le-zero (fin (negsuc a)) (fin (negsuc x)) h k f = ground arith

div-le-one : (a x : Fixed) → IsFinite a → a ≼ x → nought ≺ x → fixed_double.div a x ≼ one
div-le-one nan x h k f = cc
div-le-one (fin (pos a)) nan h k f = cc
div-le-one (fin (pos a)) (fin (pos x)) h k f = ground (arith, div-le_unit a x)
div-le-one (fin (pos a)) (fin (negsuc x)) h k f = ground arith
div-le-one (fin (negsuc a)) nan h k f = cc
div-le-one (fin (negsuc a)) (fin (pos x)) h k f = ground arith
div-le-one (fin (negsuc a)) (fin (negsuc x)) h k f = ground arith

div-IsFinite_modest :
    (a x : Fixed) → IsModest a → fixed_double.of_nano (pos 1) ≺ x → IsFinite (fixed_double.div a x)
div-IsFinite_modest nan x h k = cc
div-IsFinite_modest (fin a) nan h k = cc
div-IsFinite_modest (fin a) (fin (pos x)) h k = ground arith
div-IsFinite_modest (fin a) (fin (negsuc x)) h k = refl

pub Fixed-IsIeee : IsIeee Fixed
Fixed-IsIeee = record {
  le_trans = λ x y z h k. ground arith;
  lt-eq-not-le = λ x y h k. ground arith;
  le_of_lt = λ x y h. ground arith;
  lt_of_le_lt = λ x y z h k. ground arith;
  lt_irrefl = λ x. ground arith;
  le_refl = λ x h. ground arith;
  of_nano-finite = λ m h. refl;
  of_nano_mono = λ m n h. ground arith;
  zero-le-sub = λ x y hx hy h. ground arith;
  sub-le-zero = λ x y hx hy h. ground arith;
  sub-le-sub = λ x y z hz h. ground arith;
  sub-finite = λ x y h k p. ground arith;
  sub-finite_modest = λ x y h k. ground arith;
  abs_sub_self = λ x hx. ground arith;
  add_mono = λ x y z hz h. ground arith;
  add_zero_le = λ z hz. ground arith;
  le-add_zero = λ z hz. ground arith;
  add-sub_upper = λ x y h k. ground arith;
  add-sub_lower = λ x y h k. ground arith;
  zero-le-div = zero-le-div;
  div-le-zero = div-le-zero;
  div-le-one = div-le-one;
  div-IsFinite_modest = div-IsFinite_modest;
  zero-le-mul = zero-le-mul;
  mul-le-self = mul-le-self;
  mul-le-zero = mul-le-zero;
  self-le-mul = self-le-mul;
  neg_mul-le = neg_mul-le;
  le-neg_mul = le-neg_mul;
}
