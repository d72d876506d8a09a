-- ===== src/Janitor.antt =====
-- scripts/ci-cloud/gcp-rocky-janitor.py and scripts/ci-cloud/gcp-janitor.py: the deletion of cloud
-- resources that a run left behind.
pub mod Call
pub mod Patterns
pub mod Dict
pub mod Gcp
pub mod Rocky
