-- ===== src/Capability.antt =====
-- scripts/provider-capability-contract.py: enumerations, dataclasses and field formats.
pub mod Format
pub mod Target
pub mod Request
pub mod Outcome
pub mod Admit
pub mod Lawful
pub mod Construct
mod Tests
