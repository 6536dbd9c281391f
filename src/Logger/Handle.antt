-- ===== src/Logger/Handle.antt =====
-- src/hdf5_logger.cpp: `Hdf5HandLogger`, the class that the other files see.
use franka_kistar_r_exp_gwb.Common.{ℕ, Bool, true, false, Option, none, some, List, []}
use franka_kistar_r_exp_gwb.Logger.Calls.{Call}
use franka_kistar_r_exp_gwb.Logger.File.{Tm, make_log_file_path}
use franka_kistar_r_exp_gwb.Logger.Impl.{Impl, OpenAnswers, CloseAnswers, open_impl, close_impl}

-- `impl` is `none` where `impl_` is a null pointer.
pub record Logger : Type 0 where
  pub path : List ℕ
  pub impl : Option Impl

-- The state of the file system and the clock that the constructor finds.
pub record Surroundings : Type 0 where
  pub root : List ℕ
  pub made : Bool
  pub exists : Bool
  pub tm : Tm
  pub tv_usec : ℕ

abbrev pub is_open : Logger → Bool
is_open l = elim l.impl [ none ↦ false | some i ↦ true ]

abbrev pub file_path : Logger → List ℕ
file_path l = l.path

module _ {F : Type 0} where
  abbrev logger_at : OpenAnswers → Option (List ℕ) → Option (Logger × List (Call F))
  logger_at a none = none
  logger_at a (some path) =
      let (i, calls) = open_impl a in some (record { path = path; impl = some i }, calls)

  -- The constructor; `none` is its exception.
  unfoldable pub construct : Surroundings → OpenAnswers → Option (Logger × List (Call F))
  construct w a = logger_at a (make_log_file_path w.root w.made w.exists w.tm w.tv_usec)

  -- The destructor.
  unfoldable pub destroy : CloseAnswers → Logger → List (Call F)
  destroy b l = elim l.impl [ none ↦ [] | some i ↦ close_impl i b ]
