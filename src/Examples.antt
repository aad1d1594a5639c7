-- ===== src/Examples.antt =====
-- Concrete inputs, and the theorems applied to them.
pub mod Cluster
mod Migration
mod Tools
mod Scripts
mod Rounds
mod Windows
