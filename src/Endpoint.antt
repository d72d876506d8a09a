-- ===== src/Endpoint.antt =====
-- scripts/endpoint_switch.py
pub mod State
pub mod Ports
pub mod Assess
pub mod Switch
pub mod Trace
pub mod Provider
mod Tests
