-- ===== src/Publication.antt =====
-- scripts/haproxy_config_lifecycle.py: the atomic publication of a reviewed file.
pub mod Disk
pub mod Act
pub mod Journal
pub mod Publish
pub mod Recover
pub mod Safe
pub mod Crash
mod Tests
