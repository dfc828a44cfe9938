-- ===== src/Lib.antt =====
-- Edge-aware Tasks RTOS: a model of the client-side runtime for tasks that run in pairs on a device
-- and an edge host.
--
-- The parts, from the bottom up, with paths from the repository's root:
-- - Port: components/EEAA/src/port. Each eaPort wrapper of port_rtos_freertos.c is a function on the
--   trace of kernel calls. The kernel, which is not in the repository, is the record `Kernel`: it
--   answers a call by a function of all the calls made before it. Port/Locks reads the held mutex and
--   the live heap blocks off a trace. Port/Board is the cycle arithmetic of port_board_esp32.c.
-- - TaskManager: components/EEAA/src/core/task_manager.c. Table is the pair of monitor arrays with
--   `numMonitoredTasks`; Registry the chunks of pair runtimes with their free list, where a slot's
--   address stands for the pointer to it; System the two with their mutexes, `nextPairId` and the
--   trace. Access, Pair, Destroy, Create, PairArgs and CreatePair hold the public functions:
--   `create_pair_ex` is `CreateEATaskPinnedToCoreEx`, `create_task` is `_CreateTaskPinnedToCore_`,
--   and so on, each with the source's name without its `edge_task_` prefix where there is one. A
--   `goto error_cleanup` is a failed `Attempt`.
-- - Offloader: components/EEAA/src/core/offloader.c and the two policies beside it. Policy holds the
--   policies, State the configuration and the event counters, Cycle candidates, validation and the
--   application of a result, Run the per-task and the batch cycle on a `World`, which is the task
--   manager with the offloader. Collection gives the list of the eligible entries, which the
--   collection of candidates is compared with, and Routing follows a candidate, a cycle in each mode
--   and a new pair to the execution sites.
-- - Facade: components/EEAA/src/api/runtime.c over the two: `App` is the `World` with the runtime's
--   own flags and configuration.
-- - Examples: src/examples and components/EEAA/examples. Specs are the specifications of the tasks,
--   Setup the start, the creation and the rounds of the loops, Exchange the client and the server
--   loop as steps over the two queues of their pair. A queue of depth 1 is the parameter `Channel`,
--   whose laws are what FreeRTOS documents of such a queue; a call that waits is a step that cannot
--   be taken yet, and the delays between the calls are left out. Counter is the mutex example, over
--   the parameter `Lock`, Stream the producer and the consumer over the parameter `Fifo`, PortCalls
--   the calls of the port's other examples, and BoardChecks the checks of the board example.
-- Prelude holds the shared tests, arrays, integers and strings; Samples and Witnesses apply the
-- theorems to concrete inputs.
--
-- A pointer is an Option where the code tests it for NULL, an array a function from its index, a
-- struct a record. uint32_t arithmetic that can wrap is taken modulo 2 ^ 32. Loops over a fixed array
-- recurse on the number of rounds that the source's bound gives, so that no fuel can run out; the
-- digits of a number are printed with as much fuel as the number, plus one, which is more than its
-- digits.
--
-- Between two calls of the kernel a function runs alone, but for `create_task`, which is outside the
-- lock while the kernel creates the task: there the other tasks change the table by a function that
-- the environment gives. A policy's functions have no effect but through their pointers. Logging, the
-- tests and the templates are not modelled.
pub mod Prelude
pub mod Port
pub mod TaskManager
pub mod Offloader
pub mod Facade
pub mod Examples
mod Samples
mod Witnesses
