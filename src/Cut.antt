-- ===== src/Cut.antt =====
-- programs/cut.c: columns or fields of each line of its input.
mod Samples
pub mod Line
pub mod Send
pub mod Ranges
pub mod Select
pub mod Args
