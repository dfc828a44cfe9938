-- ===== src/TaskManager.antt =====
-- components/EEAA/src/core/task_manager.c and include/core/task_manager.h.
pub mod Types
pub mod Spec
pub mod Table
pub mod Registry
pub mod System
pub mod Access
pub mod Unchanged
pub mod Pair
pub mod Destroy
pub mod Create
pub mod PairArgs
pub mod CreatePair
pub mod Invariant
