-- ===== src/Tools.antt =====
-- The smaller scripts around a database: sample_app/tombstone.py, slow_loader.py,
-- create_vnodes_ks_index_mv_counters.py and copy_counter_table_vnodes_to_tablets.py.
pub mod Tombstone
pub mod SlowLoader
pub mod Format
pub mod Vnodes
pub mod CounterCopy
pub mod Twcs
