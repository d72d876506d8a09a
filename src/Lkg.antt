-- ===== src/Lkg.antt =====
-- scripts/cloudfront-origin-prefix-lkg.py: the accepted list of origin prefixes.
pub mod Candidate
pub mod Platform
pub mod Provenance
pub mod Prefixes
pub mod Admit
pub mod Store
pub mod History
pub mod Main
mod Tests
