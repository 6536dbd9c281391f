-- ===== src/Common/Loops.antt =====
-- Arrays of the C program, as functions of the index, and its counted loops.
use Prim.Native.Nat.{ℕ, zero, suc, ◌+◌, ◌≤◌, ◌<◌}
use mathlib.Core.Path.{◌≡◌, refl, ap₂, subst}
use mathlib.Core.Logic.{◌⊎◌, inl, inr}
use mathlib.Core.Bool.{Bool, true, false}
use mathlib.Core.Option.{Option, none, some}
use mathlib.Core.List.{List, [], ◌∷◌, ◌++◌}
use native.Mathlib.Omega.{arith}
use franka_kistar_r_exp_gwb.Common.Tests.{◌==◌, if◌then◌else◌, ltb, Bool-cases}

-- An array: its size is the declaration's, and what lies past the size is other memory, which a
-- write out of bounds would change.
abbrev pub Array {ℓ} : Type ℓ → Type ℓ
Array A = ℕ → A

-- a[i] = v
abbrev pub update {ℓ} : {A : Type ℓ} → Array A → ℕ → A → Array A
update a i v k = if k == i then v else a k

-- for (k = i; k < i + n; ++k) s = body k s
unfoldable pub for_range {ℓ} : {S : Type ℓ} → ℕ → ℕ → (ℕ → S → S) → S → S
for_range zero k body t = t
for_range (suc m) k body t = for_range m (k + 1) body (body k t)

eq_or_lt : (i k : ℕ) → i ≤ k → (i ≡ k) ⊎ (i + 1 ≤ k)
eq_or_lt i k h = grind arith

-- What holds at the first index and passes from each index to the next holds behind the last one.
pub for_range_inv {ℓ κ} :
    {S : Type ℓ} (body : ℕ → S → S) (P : ℕ → S → Type κ) (count first last : ℕ) (t : S)
    → P first t
    → ((k : ℕ) (u : S) → P k u → P (k + 1) (body k u))
    → first + count ≡ last
    → P last (for_range count first body t)
unfolding for_range
for_range_inv body P zero first last t start step reach = subst (λ k. P k t) (omega arith) start
for_range_inv body P (suc m) first last t start step reach =
    for_range_inv body P m (first + 1) last (body first t) (step first t start) step (omega arith)

-- for (k = 0; k < n; ++k) dst[k] = src[k]
unfoldable pub copy {ℓ} : {A : Type ℓ} → ℕ → Array A → Array A → Array A
unfolding for_range
copy n src dst = for_range n 0 (λ k d. update d k (src k)) dst

-- The loop writes the first `n` cells from the source and no other.
pub copy_lem {ℓ} :
    {A : Type ℓ} (n : ℕ) (src dst : Array A) (k : ℕ)
    → copy n src dst k ≡ (if ltb k n then src k else dst k)
unfolding copy
copy_lem n src dst k =
    for_range_inv (λ i d. update d i (src i)) (λ i d. d k ≡ (if ltb k i then src k else dst k)) n 0
      n dst (ground arith) (λ i d h. ground arith) (omega arith)

-- for (k = i; k < i + n; ++k) if (!test k) return false; return true
unfoldable pub for_all : ℕ → ℕ → (ℕ → Bool) → Bool
for_all zero i test = true
for_all (suc n) i test = let rest = for_all n (i + 1) test in if test i then rest else false

-- for (k = i; k < i + n; ++k) if (test k) { found = k; break; }
unfoldable pub find_first : ℕ → ℕ → (ℕ → Bool) → Option ℕ
find_first zero i test = none
find_first (suc n) i test = let rest = find_first n (i + 1) test in if test i then some i else rest

pub for_all_sound :
    (n i : ℕ) (test : ℕ → Bool)
    → for_all n i test ≡ true
    → (k : ℕ) → i ≤ k
    → k < i + n
    → test k ≡ true
unfolding for_all
for_all_sound zero i test h k lo hi = absurd (omega arith)
for_all_sound (suc n) i test h k lo hi = elim (eq_or_lt i k lo) [
  | inl e ↦ rw (← e) (ground arith)
  | inr l ↦ for_all_sound n (i + 1) test (ground arith) k l (omega arith)
]

pub for_all_complete :
    (n i : ℕ) (test : ℕ → Bool)
    → ((k : ℕ) → i ≤ k → k < i + n → test k ≡ true)
    → for_all n i test ≡ true
unfolding for_all
for_all_complete zero i test h = refl
for_all_complete (suc n) i test h =
    rw (h i (omega arith) (omega arith))
      (for_all_complete n (i + 1) test (λ k lo hi. h k (omega arith) (omega arith)))

-- What the search finds is in range, passes the test, and is the first that does.
pub find_first-some :
    (n i : ℕ) (test : ℕ → Bool) {k : ℕ}
    → find_first n i test ≡ some k
    → (i ≤ k) × (k < i + n) × (test k ≡ true)
unfolding find_first
find_first-some zero i test h = cc
find_first-some (suc n) i test {k} h = elim (Bool-cases (test i)) [
  | inl t ↦ ground arith
  | inr f ↦
      let r = find_first-some n (i + 1) test {k = k} (ground arith) in
      (omega arith, omega arith, r.2)
]

pub find_first-none :
    (n i : ℕ) (test : ℕ → Bool)
    → find_first n i test ≡ none
    → (k : ℕ) → i ≤ k
    → k < i + n
    → test k ≡ false
unfolding find_first
find_first-none zero i test h k lo hi = absurd (omega arith)
find_first-none (suc n) i test h k lo hi = elim (eq_or_lt i k lo) [
  | inl e ↦ rw (← e) (ground arith)
  | inr l ↦ find_first-none n (i + 1) test (ground arith) k l (omega arith)
]

-- f i, f (i + 1), …, n of them, as the cells of an array lie in memory.
abbrev pub tabulate_from {ℓ} : {A : Type ℓ} → ℕ → ℕ → (ℕ → A) → List A
tabulate_from zero i f = []
tabulate_from (suc n) i f = f i ∷ tabulate_from n (i + 1) f

abbrev pub tabulate {ℓ} : {A : Type ℓ} → ℕ → (ℕ → A) → List A
tabulate n f = tabulate_from n 0 f

abbrev pub concat {ℓ} : {A : Type ℓ} → List (List A) → List A
concat [] = []
concat (l ∷ ls) = l ++ concat ls

pub tabulate_from-congr {ℓ} :
    {A : Type ℓ} (n i : ℕ) (f g : ℕ → A)
    → ((k : ℕ) → i ≤ k → k < i + n → f k ≡ g k)
    → tabulate_from n i f ≡ tabulate_from n i g
tabulate_from-congr zero i f g h = refl
tabulate_from-congr (suc n) i f g h =
    ap₂ (λ x xs. x ∷ xs) (h i (omega arith) (omega arith))
      (tabulate_from-congr n (i + 1) f g (λ k lo hi. h k (omega arith) (omega arith)))
