-- ===== src/Loader.antt =====
-- The loader (sample_app/loader.py): the ranges of ids, the rows, and the totals.
pub mod Ranges
pub mod Cover
pub mod Row
pub mod Insert
pub mod Totals
pub mod Main
