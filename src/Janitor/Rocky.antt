-- ===== src/Janitor/Rocky.antt =====
-- scripts/ci-cloud/gcp-rocky-janitor.py
pub mod Contract
pub mod Observe
pub mod Trace
pub mod Survey
pub mod Justify
pub mod Turn
pub mod Cleanup
pub mod Admitted
pub mod Provider
pub mod Expired
pub mod Authority
pub mod Request
pub mod Samples
pub mod Tests
