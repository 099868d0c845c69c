-- ===== src/Timeconst.antt =====
-- programs/bc4linux.c: the stand-in for `bc` that writes the kernel's timeconst.h.
mod Samples
pub mod Gcd
pub mod Fixed
pub mod Bounds
pub mod Adjust
pub mod Ratio
pub mod Decimal
pub mod Emit
