-- ===== src/Witnesses.antt =====
-- The theorems at concrete inputs.
mod Data
mod Routing
mod Runs
mod Applications
mod Creation
mod Cycles
mod PortExamples
