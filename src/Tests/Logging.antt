-- ===== src/Tests/Logging.antt =====
-- Tests of the logger: two samples go to a file, and a file that is refused.
use mathlib.Core.List.{Perm}
use franka_kistar_r_exp_gwb.Common.{
  ℕ, ◌≡◌, refl, inl, true, false, not, ◌&&◌, none, some, List, [], ◌∷◌, length, replicate, arith,
  if◌then◌else◌,
}
use franka_kistar_r_exp_gwb.Common.Int.{pos, negsuc}
use franka_kistar_r_exp_gwb.Double.Fixed.{Fixed, fixed_double}
use franka_kistar_r_exp_gwb.Shm.{zero_msgs}
use franka_kistar_r_exp_gwb.Logger.Columns.{
  Column, timestamp_ns, j_pos, j_tar, j_cur, j_kin, j_tac, tip_pos, tip_quat, arm_j_pos, arm_j_tar,
  arm_j_vel, arm_c_pos, arm_j_tq,
}
use franka_kistar_r_exp_gwb.Logger.Calls.{AppendAnswers}
use franka_kistar_r_exp_gwb.Logger.Calls.Release.{all_of}
use franka_kistar_r_exp_gwb.Logger.Impl.{
  Impl, OpenAnswers, Sample, CloseAnswers, open_impl, append_all, close_impl,
}
use franka_kistar_r_exp_gwb.Logger.Impl.Refused.{append_all_refused}
use franka_kistar_r_exp_gwb.Logger.Impl.Life.{makes, frees, close_impl-open_impl}
use franka_kistar_r_exp_gwb.Logger.File.{Tm, codes, make_log_file_path}
use franka_kistar_r_exp_gwb.Logger.File.Stamp.{fields, read_path, make_log_file_path-read}

abbrev number : Column → ℕ
number timestamp_ns = 10
number j_pos = 11
number j_tar = 12
number j_cur = 13
number j_kin = 14
number j_tac = 15
number tip_pos = 16
number tip_quat = 17
number arm_j_pos = 18
number arm_j_tar = 19
number arm_j_vel = 20
number arm_c_pos = 21
number arm_j_tq = 22

-- The library gives what it is asked for.
abbrev opened : OpenAnswers
opened = record {
  file = pos 1;
  file_valid = pos 1;
  created = λ c. record {
    space = pos 2;
    plist = pos 3;
    chunked = pos 0;
    dataset = pos (number c);
    valid = pos 1;
  };
  checked = λ _. pos 1;
}

abbrev logger : Impl
logger = record { file_id = pos 1; id = λ c. pos (number c); row_count = 5; valid = true }

abbrev accepted : AppendAnswers
accepted = record { valid = pos 1; extended = pos 0; file_space = pos 4; mem_space = pos 5 }

abbrev sample : Sample Fixed
sample = record { msgs = zero_msgs; tv_sec = 1_700_000_000; tv_usec = 250; answers = λ _. accepted }

abbrev session : List (Sample Fixed)
session = sample ∷ sample ∷ []

abbrev refused : OpenAnswers
refused = record opened { file = negsuc 0 }

append_all_refused_example :
    let l = (open_impl {F = Fixed} refused).0 in
    (append_all l session ≡ (l, replicate (length session) [])) × (l.row_count ≡ 0)
append_all_refused_example = append_all_refused Fixed refused session (inl refl)

abbrev closed : CloseAnswers
closed = record { file_valid = pos 1; dataset_valid = λ _. pos 1 }

close_impl-open_impl_example :
    Perm
      (all_of (makes Fixed (λ _. pos 1)) (open_impl opened).1)
      (all_of (frees Fixed) (close_impl (open_impl {F = Fixed} opened).0 closed))
close_impl-open_impl_example =
    close_impl-open_impl Fixed (λ _. pos 1) opened closed (refl, refl, (λ c. refl), (λ c. refl))

abbrev evening : Tm
evening = record {
  tm_year_1900 = 2026;
  tm_mon = 1;
  tm_mday = 3;
  tm_hour = 17;
  tm_min = 5;
  tm_sec = 9;
}

make_log_file_path-read_example :
    read_path (codes "/home") (make_log_file_path (codes "/home") false true evening 42_999)
    ≡ (if not false && not true then none else some (fields evening 42_999))
make_log_file_path-read_example =
    make_log_file_path-read (codes "/home") false true evening 42_999
      (omega arith, omega arith, omega arith, omega arith, omega arith, omega arith, omega arith)
