-- ===== src/Tests/Exact.antt =====
-- Integers as exact numbers, whose sine and cosine are those of quarter turns.
use franka_kistar_r_exp_gwb.Double.{Double}
use franka_kistar_r_exp_gwb.Kinematics.Transform.{Maths}
use franka_kistar_r_exp_gwb.Kinematics.Transform.Exact.{IsExact}
use franka_kistar_r_exp_gwb.Common.{
  ℕ, ◌+◌, ◌*◌, ◌%◌, ◌/◌, ◌≡◌, refl, ap, arith, true, [], ◌∷◌, get_or, ◌⊎◌, inl, inr,
}
use franka_kistar_r_exp_gwb.Common.Int.{
  ℤ, pos, negsuc, pos_part, neg_part, sub_ℕ, eq_of_parts, ◌+ℤ◌, ◌-ℤ◌, ◌*ℤ◌, +ℤ_parts, ltb_ℤ, leb_ℤ,
}

sub-parts : (a b : ℕ) → pos_part (sub_ℕ a b) + b ≡ neg_part (sub_ℕ a b) + a
sub-parts a b = ground arith

scaled : (a b c d x : ℕ) → a + b ≡ c + d → a * x + b * x ≡ c * x + d * x
scaled a b c d x h = omega (arith, ap (λ n. n * x) h)

scaled_3 :
    (a b c d e f x : ℕ) → a + b + c ≡ d + e + f → x * a + x * b + x * c ≡ x * d + x * e + x * f
scaled_3 a b c d e f x h = omega (arith, ap (λ n. x * n) h)

mul_parts :
    (a b : ℤ)
    → pos_part (a *ℤ b) + (pos_part a * neg_part b + neg_part a * pos_part b)
      ≡ neg_part (a *ℤ b) + (pos_part a * pos_part b + neg_part a * neg_part b)
unfolding ◌*ℤ◌
mul_parts a b = sub-parts _ _

add_assoc : (a b c : ℤ) → a +ℤ b +ℤ c ≡ a +ℤ (b +ℤ c)
add_assoc a b c =
    eq_of_parts _ _
      (omega (arith, +ℤ_parts a b, +ℤ_parts (a +ℤ b) c, +ℤ_parts b c, +ℤ_parts a (b +ℤ c)))

mul_comm : (a b : ℤ) → a *ℤ b ≡ b *ℤ a
mul_comm a b = eq_of_parts _ _ (omega (arith, mul_parts a b, mul_parts b a))

mul_assoc : (a b c : ℤ) → a *ℤ b *ℤ c ≡ a *ℤ (b *ℤ c)
mul_assoc a b c =
    let ab = mul_parts a b in
    let bc = mul_parts b c in
    eq_of_parts _ _ (
      omega (
        arith,
        mul_parts (a *ℤ b) c,
        mul_parts a (b *ℤ c),
        scaled _ _ _ _ (pos_part c) ab,
        scaled _ _ _ _ (neg_part c) ab,
        scaled _ _ _ _ (pos_part a) bc,
        scaled _ _ _ _ (neg_part a) bc,
      ))

mul-add : (a b c : ℤ) → a *ℤ (b +ℤ c) ≡ a *ℤ b +ℤ a *ℤ c
mul-add a b c =
    let bc = +ℤ_parts b c in
    eq_of_parts _ _ (
      omega (
        arith,
        mul_parts a (b +ℤ c),
        mul_parts a b,
        mul_parts a c,
        +ℤ_parts (a *ℤ b) (a *ℤ c),
        scaled_3 _ _ _ _ _ _ (pos_part a) bc,
        scaled_3 _ _ _ _ _ _ (neg_part a) bc,
      ))

abbrev neg_ℤ : ℤ → ℤ
neg_ℤ a = sub_ℕ (neg_part a) (pos_part a)

abbrev turn_cos : ℤ → ℤ
turn_cos (pos q) = get_or (pos 1 ∷ pos 0 ∷ negsuc 0 ∷ pos 0 ∷ []) (q % 4) (pos 0)
turn_cos (negsuc q) = get_or (pos 0 ∷ negsuc 0 ∷ pos 0 ∷ pos 1 ∷ []) (q % 4) (pos 0)

abbrev turn_sin : ℤ → ℤ
turn_sin (pos q) = get_or (pos 0 ∷ pos 1 ∷ pos 0 ∷ negsuc 0 ∷ []) (q % 4) (pos 0)
turn_sin (negsuc q) = get_or (negsuc 0 ∷ pos 0 ∷ pos 1 ∷ pos 0 ∷ []) (q % 4) (pos 0)

-- The numbers of the code, in units of one, rounded toward zero; the square root is not used.
instance abbrev pub whole : Double ℤ
whole = record {
  of_nano = λ a. sub_ℕ (pos_part a / 1_000_000_000) (neg_part a / 1_000_000_000);
  of_int = λ a. a;
  to_float = λ a. a;
  lt = ltb_ℤ;
  le = leb_ℤ;
  is_finite = λ _. true;
  abs = λ a. pos (pos_part a + neg_part a);
  add = ◌+ℤ◌;
  sub = ◌-ℤ◌;
  mul = ◌*ℤ◌;
  div = λ a b. pos 0;
}

instance abbrev pub quarter_turns : Maths ℤ
quarter_turns = record { cos = turn_cos; sin = turn_sin; sqrt = λ a. a; neg = neg_ℤ; pi = pos 2 }

rest-cases : (n : ℕ) → (n % 4 ≡ 0) ⊎ (n % 4 ≡ 1) ⊎ (n % 4 ≡ 2) ⊎ (n % 4 ≡ 3)
rest-cases n = omega arith

circle : (q : ℤ) → turn_cos q *ℤ turn_cos q +ℤ turn_sin q *ℤ turn_sin q ≡ pos 1
unfolding ◌+ℤ◌ ◌*ℤ◌
circle (pos q) = elim (rest-cases q) [
  | inl h ↦ rw h refl
  | inr (inl h) ↦ rw h refl
  | inr (inr (inl h)) ↦ rw h refl
  | inr (inr (inr h)) ↦ rw h refl
]
circle (negsuc q) = elim (rest-cases q) [
  | inl h ↦ rw h refl
  | inr (inl h) ↦ rw h refl
  | inr (inr (inl h)) ↦ rw h refl
  | inr (inr (inr h)) ↦ rw h refl
]

instance pub whole-IsExact : IsExact ℤ
unfolding ◌+ℤ◌ ◌-ℤ◌ ◌*ℤ◌
whole-IsExact = record {
  add_assoc = add_assoc;
  add_comm = λ a b. ground arith;
  add-zero = λ a. ground arith;
  add-neg = λ a. ground arith;
  sub-eq = λ a b. ground arith;
  mul_assoc = mul_assoc;
  mul_comm = mul_comm;
  mul-one = λ a. ground arith;
  mul-add = mul-add;
  cos-sin = circle;
}
