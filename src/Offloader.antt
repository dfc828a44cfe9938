-- ===== src/Offloader.antt =====
-- The client-side routing controller: components/EEAA/src/core/offloader.c and the two built-in
-- policies offloader_policy_simple.c and offloader_policy_rm.c.
pub mod Types
pub mod Policy
pub mod State
pub mod Cycle
pub mod Run
pub mod Invariant
pub mod Routing
pub mod Collection
