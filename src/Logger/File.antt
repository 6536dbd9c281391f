-- ===== src/Logger/File.antt =====
-- src/hdf5_logger.cpp: `make_log_file_path`. A text is the list of its character codes.
use Prim.Native.Char.{code}
use Prim.Native.String.{String}
use franka_kistar_r_exp_gwb.Common.{
  ℕ, zero, suc, ◌+◌, ◌-◌, ◌*◌, ◌/◌, ◌%◌, ◌≤◌, ◌<◌, ◌≡◌, refl, ap, ap₂, inl, inr, Bool, false, not,
  ◌&&◌, Option, none, some, List, [], ◌∷◌, ◌++◌, length, arith, ◌==◌, if◌then◌else◌, Bool-cases,
}
pub mod Stamp

-- What localtime_r gives, for a year that is not before year 0.
pub record Tm : Type 0 where
  pub tm_year_1900 : ℕ
  pub tm_mon : ℕ
  pub tm_mday : ℕ
  pub tm_hour : ℕ
  pub tm_min : ℕ
  pub tm_sec : ℕ

abbrev pub codes : String → List ℕ
codes String.[] = []
codes (String.◌∷◌ c s) = code c ∷ codes s

abbrev pub take {ℓ} : {A : Type ℓ} → ℕ → List A → List A
take zero xs = []
take (suc n) [] = []
take (suc n) (x ∷ xs) = x ∷ take n xs

abbrev pub drop {ℓ} : {A : Type ℓ} → ℕ → List A → List A
drop zero xs = xs
drop (suc n) [] = []
drop (suc n) (x ∷ xs) = drop n xs

-- `%0wd` of `n`, from the last digit on: every digit of `n`, and zeros up to the width. Each turn
-- takes a place of the width or a digit, so that `w + n` turns are enough.
unfoldable pub digits : ℕ → ℕ → ℕ → List ℕ
digits zero w n = []
digits (suc fuel) w n =
    let rest = digits fuel (w - 1) (n / 10) in
    if (w == 0) && (n == 0) then [] else rest ++ ((48 + n % 10) ∷ [])

unfoldable pub padded : ℕ → ℕ → List ℕ
unfolding digits
padded w n = digits (w + n) w n

-- "%04d%02d%02d_%02d%02d%02d_%03ld"
unfoldable pub stamp_text : Tm → ℕ → List ℕ
stamp_text t tv_usec =
    padded 4 t.tm_year_1900
    ++ padded 2 (t.tm_mon + 1)
    ++ padded 2 t.tm_mday
    ++ codes "_"
    ++ padded 2 t.tm_hour
    ++ padded 2 t.tm_min
    ++ padded 2 t.tm_sec
    ++ codes "_"
    ++ padded 3 (tv_usec / 1000)

-- `none` is the exception. `made` is `mkdir(…) == 0`, `exists` is `errno == EEXIST`; snprintf
-- writes 63 characters at most.
unfoldable pub make_log_file_path : List ℕ → Bool → Bool → Tm → ℕ → Option (List ℕ)
make_log_file_path root made exists t tv_usec =
    if not made && not exists
    then none
    else some (
        root
        ++ (codes "/log" ++ codes "/hand_log_" ++ take 63 (stamp_text t tv_usec) ++ codes ".hdf5"))
