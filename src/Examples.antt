-- ===== src/Examples.antt =====
-- The example applications: src/examples and components/EEAA/examples.
pub mod Specs
pub mod Setup
pub mod Exchange
pub mod Counter
pub mod BoardChecks
pub mod Stream
pub mod PortCalls
