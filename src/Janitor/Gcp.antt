-- ===== src/Janitor/Gcp.antt =====
-- scripts/ci-cloud/gcp-janitor.py: the deletion of fixtures whose time is over.
pub mod Contract
pub mod Parsed
pub mod Cleanup
pub mod Keeps
pub mod Due
pub mod Reports
pub mod Client
pub mod Tests
