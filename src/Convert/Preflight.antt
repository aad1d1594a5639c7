-- ===== src/Convert/Preflight.antt =====
-- The checks before a migration (sample_app/convert_to_tablets.py, `scylla_version` to `preflight`).
pub mod Ends
pub mod Cluster
pub mod Schema
pub mod Reads
