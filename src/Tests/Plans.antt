-- ===== src/Tests/Plans.antt =====
-- Tests of the theorems on the checks of src/franka_right_arm.cpp.
use franka_kistar_r_exp_gwb.Common.{◌≡◌, refl, some, arith}
use franka_kistar_r_exp_gwb.Common.Int.{pos}
use franka_kistar_r_exp_gwb.Double.Fixed.{Fixed, fin, fixed_double, Fixed-IsIeee}
use franka_kistar_r_exp_gwb.Arm.Plan.{Plan, load, IsSound, IsCopy}
use franka_kistar_r_exp_gwb.Arm.Plan.Check.{load_sound, load_complete}
use franka_kistar_r_exp_gwb.Tests.Fixtures.{demo_buf, route-IsEntry}

abbrev accepted :
    (p : Plan Fixed) × (load (demo_buf 1) ≡ some p) × IsSound p × IsCopy (demo_buf 1) p
accepted =
    load_complete Fixed-IsIeee (demo_buf 1) 2 refl (omega arith) (omega arith)
      λ i _. route-IsEntry 0 i

load_sound_example : IsSound accepted.0 × IsCopy (demo_buf 1) accepted.0
load_sound_example = load_sound Fixed-IsIeee (demo_buf 1) accepted.0 accepted.1

abbrev slow : Fixed
slow = fin (pos 1_000)
