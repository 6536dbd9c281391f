-- ===== src/Double.antt =====
-- What the C++ code uses of `double`: decimal constants, the comparisons, `std::isfinite`,
-- `std::abs` and the four operations. The type is a parameter, since the kernel has no floats. The
-- laws in `IsIeee` are facts of IEEE 754 binary64 in round-to-nearest: they hold of rounded results
-- and speak of finite arguments where NaN or an infinity would break them.
mod Laws
pub mod Fixed
pub mod Order
pub use Laws.{Double, IsIeee, ◌≼◌, ◌≺◌, IsFinite, IsModest, nought, one}
