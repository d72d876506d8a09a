-- ===== src/Firewall.antt =====
-- scripts/provider-firewall-contract.py
pub mod Prefixes
pub mod Types
pub mod Documents
pub mod Observe
pub mod Plan
pub mod Verify
pub mod Rollback
pub mod Observed
pub mod Binding
pub mod Recovery
pub mod RoundTrip
pub mod Planned
mod Tests
