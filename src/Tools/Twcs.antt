-- ===== src/Tools/Twcs.antt =====
-- The demonstration of time windows (sample_app/twcs/device_read_data_demo.py).
pub mod Window
pub mod Cluster
pub mod Seed
pub mod Demo
