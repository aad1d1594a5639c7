-- ===== src/Cleanup.antt =====
-- The cleanup of old rows by ranges of tokens (sample_app/alternator-client/cleanup_userid_mt.py).
pub mod Ranges
pub mod Rows
pub mod Users
