-- ===== src/Logger/File/Stamp.antt =====
-- The name of the logger's file (src/hdf5_logger.cpp) can be read again.
use franka_kistar_r_exp_gwb.Common.{
  ℕ, zero, suc, ◌+◌, ◌-◌, ◌*◌, ◌/◌, ◌%◌, ◌≤◌, ◌<◌, ◌≡◌, refl, ap, ap₂, inl, inr, Bool, false, not,
  ◌&&◌, Option, none, some, List, [], ◌∷◌, ◌++◌, length, arith, ◌==◌, if◌then◌else◌, Bool-cases,
}
use franka_kistar_r_exp_gwb.Logger.File.{
  Tm, codes, take, drop, digits, padded, stamp_text, make_log_file_path,
}

-- The number that digits write.
abbrev pub value : List ℕ → ℕ → ℕ
value [] acc = acc
value (c ∷ cs) acc = value cs (acc * 10 + (c - 48))

value-append : (xs ys : List ℕ) (acc : ℕ) → value (xs ++ ys) acc ≡ value ys (value xs acc)
value-append [] ys acc = refl
value-append (x ∷ xs) ys acc = value-append xs ys (acc * 10 + (x - 48))

value-digits : (fuel w n : ℕ) → w + n ≤ fuel → value (digits fuel w n) 0 ≡ n
unfolding digits
value-digits zero w n h = omega arith
value-digits (suc fuel) w n h = elim (Bool-cases ((w == 0) && (n == 0))) [
  | inl e ↦ rw e (ground arith)
  | inr e ↦
      rw
        (
          e,
          value-append (digits fuel (w - 1) (n / 10)) ((48 + n % 10) ∷ []) 0,
          value-digits fuel (w - 1) (n / 10) (ground arith),
        )
        (omega arith)
]

-- `w` digits, the last one last.
abbrev fixed : ℕ → ℕ → List ℕ
fixed zero n = []
fixed (suc w) n = fixed w (n / 10) ++ ((48 + n % 10) ∷ [])

abbrev power_10 : ℕ → ℕ
power_10 zero = 1
power_10 (suc w) = 10 * power_10 w

digits_none : (fuel n : ℕ) → n < 1 → digits fuel 0 n ≡ []
unfolding digits
digits_none zero n h = refl
digits_none (suc fuel) n h = ground arith

suc_not_zero : (w : ℕ) → (suc w == 0) ≡ false
suc_not_zero w = ground arith

suc_less_one : (w : ℕ) → suc w - 1 ≡ w
suc_less_one w = omega arith

digits-fixed : (fuel w n : ℕ) → w ≤ fuel → n < power_10 w → digits fuel w n ≡ fixed w n
unfolding digits
digits-fixed fuel zero n f h = digits_none fuel n h
digits-fixed zero (suc w) n f h = absurd (omega arith)
digits-fixed (suc fuel) (suc w) n f h =
    rw (suc_not_zero w, suc_less_one w, digits-fixed fuel w (n / 10) (omega arith) (omega arith))
      refl

padded-fixed : (w n : ℕ) → n < power_10 w → padded w n ≡ fixed w n
unfolding padded
padded-fixed w n h = digits-fixed (w + n) w n (omega arith) h

-- `%0wd` writes its number whole, with digits that leave out nothing.
pub value-padded : (w n : ℕ) → value (padded w n) 0 ≡ n
unfolding padded
value-padded w n = value-digits (w + n) w n (omega arith)

-- The ranges of struct tm, a year of four digits and the microseconds of a second.
abbrev pub IsTime : Tm → ℕ → Type 0
IsTime t tv_usec =
    (t.tm_year_1900 < 10000)
    × (t.tm_mon < 12)
    × (t.tm_mday < 32)
    × (t.tm_hour < 24)
    × (t.tm_min < 60)
    × (t.tm_sec < 61)
    × (tv_usec < 1_000_000)

-- The year, month, day, hour, minute, second and millisecond of a stamp.
abbrev pub read_stamp : List ℕ → List ℕ
read_stamp s =
    value (take 4 s) 0
    ∷ value (take 2 (drop 4 s)) 0
    ∷ value (take 2 (drop 6 s)) 0
    ∷ value (take 2 (drop 9 s)) 0
    ∷ value (take 2 (drop 11 s)) 0
    ∷ value (take 2 (drop 13 s)) 0
    ∷ value (take 3 (drop 16 s)) 0
    ∷ []

abbrev pub fields : Tm → ℕ → List ℕ
fields t tv_usec =
    t.tm_year_1900
    ∷ (t.tm_mon + 1)
    ∷ t.tm_mday
    ∷ t.tm_hour
    ∷ t.tm_min
    ∷ t.tm_sec
    ∷ (tv_usec / 1000)
    ∷ []

abbrev fixed_text : Tm → ℕ → List ℕ
fixed_text t tv_usec =
    fixed 4 t.tm_year_1900
    ++ fixed 2 (t.tm_mon + 1)
    ++ fixed 2 t.tm_mday
    ++ codes "_"
    ++ fixed 2 t.tm_hour
    ++ fixed 2 t.tm_min
    ++ fixed 2 t.tm_sec
    ++ codes "_"
    ++ fixed 3 (tv_usec / 1000)

stamp_text_fixed :
    (t : Tm) (tv_usec : ℕ) → IsTime t tv_usec → stamp_text t tv_usec ≡ fixed_text t tv_usec
unfolding stamp_text
stamp_text_fixed t u (y, mon, d, h, mi, s, us) =
    rw
      (
        padded-fixed 4 t.tm_year_1900 (omega arith),
        padded-fixed 2 (t.tm_mon + 1) (omega arith),
        padded-fixed 2 t.tm_mday (omega arith),
        padded-fixed 2 t.tm_hour (omega arith),
        padded-fixed 2 t.tm_min (omega arith),
        padded-fixed 2 t.tm_sec (omega arith),
        padded-fixed 3 (u / 1000) (omega arith),
      )
      refl

value_2 : (n : ℕ) → n < power_10 2 → value (fixed 2 n) 0 ≡ n
value_2 n h = omega arith

value_3 : (n : ℕ) → n < power_10 3 → value (fixed 3 n) 0 ≡ n
value_3 n h = omega arith

value_4 : (n : ℕ) → n < power_10 4 → value (fixed 4 n) 0 ≡ n
value_4 n h = omega arith

fixed_text_read :
    (t : Tm) (tv_usec : ℕ) (rest : List ℕ)
    → IsTime t tv_usec
    → read_stamp (take 63 (fixed_text t tv_usec) ++ rest) ≡ fields t tv_usec
fixed_text_read t u rest (y, mon, d, h, mi, s, us) =
    ap₂ (λ a as'. a ∷ as') (value_4 t.tm_year_1900 y)
      (ap₂ (λ a as'. a ∷ as') (value_2 (t.tm_mon + 1) (omega arith))
        (ap₂ (λ a as'. a ∷ as') (value_2 t.tm_mday (omega arith))
          (ap₂ (λ a as'. a ∷ as') (value_2 t.tm_hour (omega arith))
            (ap₂ (λ a as'. a ∷ as') (value_2 t.tm_min (omega arith))
              (ap₂ (λ a as'. a ∷ as') (value_2 t.tm_sec (omega arith))
                (ap (λ a. a ∷ []) (value_3 (u / 1000) (omega arith))))))))

drop-length : {A : Type 0} (xs ys : List A) → drop (length xs) (xs ++ ys) ≡ ys
drop-length [] ys = refl
drop-length (x ∷ xs) ys = drop-length xs ys

-- The fields in the name of a file in `root`, behind "/log/hand_log_".
abbrev pub read_path : List ℕ → Option (List ℕ) → Option (List ℕ)
read_path root none = none
read_path root (some path) = some (read_stamp (drop 14 (drop (length root) path)))

-- There is no path just when the directory can neither be made nor exists; otherwise the date, the
-- time of day in local time and the millisecond can be read from the path again.
pub make_log_file_path-read :
    (root : List ℕ) (made exists : Bool) (t : Tm) (tv_usec : ℕ)
    → IsTime t tv_usec
    → read_path root (make_log_file_path root made exists t tv_usec)
      ≡ (if not made && not exists then none else some (fields t tv_usec))
unfolding make_log_file_path
make_log_file_path-read root made exists t u h = elim (Bool-cases (not made && not exists)) [
  | inl bad ↦ rw bad refl
  | inr fine ↦
      rw (fine, stamp_text_fixed t u h)
        (rw
          (drop-length root
            (codes "/log" ++ codes "/hand_log_" ++ take 63 (fixed_text t u) ++ codes ".hdf5"))
          (ap some (fixed_text_read t u (codes ".hdf5") h)))
]
