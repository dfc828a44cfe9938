-- ===== src/Port/Kernel.antt =====
-- FreeRTOS and ESP-IDF as the port layer sees them. The kernel answers a call by a function of
-- all the calls made before it, so that any deterministic kernel is an instance.
use edge_aware_tasks_rtos.Prelude.{ℕ, Option, List, Text}

-- The arguments of `xTaskCreatePinnedToCore`; `core` is none for tskNO_AFFINITY.
pub record TaskRequest : Type 0 where
  pub code : ℕ
  pub name : Text
  pub stack : ℕ
  pub parameter : Option ℕ
  pub priority : ℕ
  pub core : Option ℕ

-- A kernel call with its answer. A task call on none is a call on the running task.
pub data Call : Type 0 where
  mutex_created : Option ℕ → Call
  mutex_taken mutex_given mutex_deleted : ℕ → Call
  allocated : Option ℕ → Call
  freed : ℕ → Call
  queue_created : (len size : ℕ) → Option ℕ → Call
  queue_deleted : ℕ → Call
  queue_sent queue_received : (queue ticks : ℕ) → Call
  task_created : TaskRequest → Option ℕ → Call
  task_deleted task_suspended task_resumed : Option ℕ → Call
  delayed : ℕ → Call
  delayed_until : (previous ticks : ℕ) → Call

-- The latest call first.
abbrev pub Trace : Type 0
Trace = List Call

-- What the functions of the kernel return: none is NULL, or a status other than pdPASS.
pub record Kernel : Type 0 where
  pub mutex : Trace → Option ℕ
  pub malloc : Trace → Option ℕ
  pub queue : Trace → (len size : ℕ) → Option ℕ
  pub send : Trace → (queue : ℕ) → (item : Text) → (ticks : ℕ) → Option (Unit {0})
  pub receive : Trace → (queue ticks : ℕ) → Option Text
  pub waiting : Trace → (queue : ℕ) → ℕ
  pub task : Trace → TaskRequest → Option ℕ
  pub current_task : Trace → Option ℕ
  pub task_by_name : Trace → Text → Option ℕ
  pub ms_to_ticks : ℕ → ℕ
  pub max_delay : ℕ
