-- ===== src/Port.antt =====
-- The portable RTOS layer of components/EEAA/src/port: the FreeRTOS kernel that it calls is a
-- parameter (Kernel), its wrappers are Rtos and TaskInfo, the board functions Board.
pub mod Kernel
pub mod Rtos
pub mod TaskInfo
pub mod Board
pub mod Locks
