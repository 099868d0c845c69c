-- ===== src/Sort.antt =====
-- programs/sort.c and programs/uniq.c: reads lines, sorts them, prints them. Both programs have the
-- same code for all but the sorting.
mod Samples
pub mod Array
pub mod Compare
pub mod Quick
pub mod Lines
pub mod Input
pub mod Main
