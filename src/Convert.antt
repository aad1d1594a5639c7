-- ===== src/Convert.antt =====
-- sample_app/convert_to_tablets.py, part by part.
pub mod Api
pub mod Kube
pub mod Nodes
pub mod Status
pub mod Restart
pub mod Blob
pub mod Preflight
pub mod Report
pub mod Phases
pub mod Main
pub mod Waits
