-- ===== src/Tests/Residues.antt =====
-- The integers modulo 3 as exact numbers with quotients and roots, and the quaternion of a rotation
-- over them.
use franka_kistar_r_exp_gwb.Common.{
  ℕ, zero, suc, ◌+◌, ◌%◌, ◌≡◌, refl, arith, Bool, true, false, ◌&&◌, ltb,
}
use franka_kistar_r_exp_gwb.Common.Int.{ℤ, pos_part, neg_part}
use franka_kistar_r_exp_gwb.Double.{Double}
use franka_kistar_r_exp_gwb.Kinematics.Transform.{Maths}
use franka_kistar_r_exp_gwb.Kinematics.Transform.Exact.{IsExact}
use franka_kistar_r_exp_gwb.Kinematics.Quaternion.{Quaternion}

pub data Residue : Type 0 where
  r0 : Residue
  r1 : Residue
  r2 : Residue

abbrev next_of : Residue → Residue
next_of r0 = r1
next_of r1 = r2
next_of r2 = r0

abbrev plus : Residue → Residue → Residue
plus r0 b = b
plus r1 b = next_of b
plus r2 b = next_of (next_of b)

abbrev minus : Residue → Residue
minus r0 = r0
minus r1 = r2
minus r2 = r1

abbrev times : Residue → Residue → Residue
times r0 b = r0
times r1 b = b
times r2 b = minus b

abbrev value : Residue → ℕ
value r0 = 0
value r1 = 1
value r2 = 2

abbrev residue : ℕ → Residue
residue zero = r0
residue (suc n) = next_of (residue n)

abbrev of_integer : ℤ → Residue
of_integer a = plus (residue (pos_part a % 3)) (minus (residue (neg_part a % 3)))

-- A quarter turn by 1, and half a turn by 2.
abbrev turn_cos : Residue → Residue
turn_cos r0 = r1
turn_cos r1 = r0
turn_cos r2 = r2

abbrev turn_sin : Residue → Residue
turn_sin r0 = r0
turn_sin r1 = r1
turn_sin r2 = r0

abbrev root : Residue → Residue
root r0 = r0
root r1 = r1
root r2 = r2

instance abbrev pub residues : Double Residue
residues = record {
  of_nano = of_integer;
  of_int = of_integer;
  to_float = λ a. a;
  lt = λ a b. ltb (value a) (value b);
  le = λ a b. ltb (value a) (value b + 1);
  is_finite = λ _. true;
  abs = λ a. a;
  add = plus;
  sub = λ a b. plus a (minus b);
  mul = times;
  div = times;
}

instance abbrev pub residue_maths : Maths Residue
residue_maths = record { cos = turn_cos; sin = turn_sin; sqrt = root; neg = minus; pi = r2 }

-- A law of three residues is tried on all of them.
abbrev same : Residue → Residue → Bool
same r0 r0 = true
same r1 r1 = true
same r2 r2 = true
same r0 r1 = false
same r0 r2 = false
same r1 r0 = false
same r1 r2 = false
same r2 r0 = false
same r2 r1 = false

same_eq : (a b : Residue) → same a b ≡ true → a ≡ b
same_eq r0 r0 h = refl
same_eq r1 r1 h = refl
same_eq r2 r2 h = refl
same_eq r0 r1 h = ground arith
same_eq r0 r2 h = ground arith
same_eq r1 r0 h = ground arith
same_eq r1 r2 h = ground arith
same_eq r2 r0 h = ground arith
same_eq r2 r1 h = ground arith

abbrev every : (Residue → Bool) → Bool
every p = p r0 && (p r1 && p r2)

every_lem : (p : Residue → Bool) → every p ≡ true → (a : Residue) → p a ≡ true
every_lem p h r0 = ground arith
every_lem p h r1 = ground arith
every_lem p h r2 = ground arith

law_1 : (f g : Residue → Residue) → every (λ a. same (f a) (g a)) ≡ true → (a : Residue) → f a ≡ g a
law_1 f g h a = same_eq _ _ (every_lem (λ x. same (f x) (g x)) h a)

law_2 :
    (f g : Residue → Residue → Residue)
    → every (λ a. every (λ b. same (f a b) (g a b))) ≡ true
    → (a b : Residue) → f a b ≡ g a b
law_2 f g h a = law_1 (f a) (g a) (every_lem (λ x. every (λ y. same (f x y) (g x y))) h a)

law_3 :
    (f g : Residue → Residue → Residue → Residue)
    → every (λ a. every (λ b. every (λ c. same (f a b c) (g a b c)))) ≡ true
    → (a b c : Residue) → f a b c ≡ g a b c
law_3 f g h a =
    law_2 (f a) (g a) (every_lem (λ x. every (λ y. every (λ z. same (f x y z) (g x y z)))) h a)

instance pub residues-IsExact : IsExact Residue
residues-IsExact = record {
  add_assoc = law_3 (λ a b c. plus (plus a b) c) (λ a b c. plus a (plus b c)) refl;
  add_comm = law_2 plus (λ a b. plus b a) refl;
  add-zero = law_1 (λ a. plus a r0) (λ a. a) refl;
  add-neg = law_1 (λ a. plus a (minus a)) (λ _. r0) refl;
  sub-eq = λ a b. refl;
  mul_assoc = law_3 (λ a b c. times (times a b) c) (λ a b c. times a (times b c)) refl;
  mul_comm = law_2 times (λ a b. times b a) refl;
  mul-one = law_1 (λ a. times a r1) (λ a. a) refl;
  mul-add = law_3 (λ a b c. times a (plus b c)) (λ a b c. plus (times a b) (times a c)) refl;
  cos-sin =
      law_1 (λ q. plus (times (turn_cos q) (turn_cos q)) (times (turn_sin q) (turn_sin q)))
        (λ _. r1) refl;
}

abbrev tilted : Quaternion Residue
tilted = record { w = r1; x = r2; y = r1; z = r1 }
