-- ===== src/Examples/PortCalls.antt =====
-- The calls of the port that the main task of components/EEAA/examples/port/port_rtos_example.c makes.
-- The task functions are numbers; the loops of the workers are in
-- Examples/Counter, those of the producer and the consumer in Examples/Stream.
use edge_aware_tasks_rtos.Prelude.{ℕ, zero, suc, Option, none, some, codes, Text}
use edge_aware_tasks_rtos.Port.Kernel.{Kernel, Trace}
use edge_aware_tasks_rtos.Port.Rtos.{
  no_affinity, mutex_create, mutex_destroy, port_malloc, port_free, queue_create, queue_delete,
  task_create_pinned_to_core, task_suspend, task_resume, task_delete, delay_milliseconds,
}

-- The handle after a creation: the one that was created, else what it was.
abbrev created_or : Option ℕ → Option ℕ → Option ℕ
created_or none old = old
created_or (some h) old = some h

-- `sizeof(app_msg_t)`
abbrev message_size : ℕ
message_size = 24

module _ (k : Kernel) where
  -- A creation with the examples' stack, priority and core.
  abbrev create : (code : ℕ) → Text → (parameter : Option ℕ) → Trace → Option ℕ × Trace
  create code name parameter = task_create_pinned_to_core k code name 2048 parameter 2 no_affinity

  delays : (rounds ms : ℕ) → Trace → Trace
  unfolding delay_milliseconds
  delays zero ms t = t
  delays (suc n) ms t = delays n ms (delay_milliseconds k ms t)

  -- `example_task_simple`: five delays, and its end.
  unfoldable pub simple_task : Trace → Trace
  unfolding delays task_delete
  simple_task t = task_delete none (delays 5 500 t)

  -- One round of `task_to_be_suspended`.
  unfoldable pub busy_round : Trace → Trace
  unfolding delay_milliseconds
  busy_round = delay_milliseconds k 500

  unfoldable pub run_task_example : (task name : ℕ) → Trace → Trace
  unfolding task_create_pinned_to_core delay_milliseconds
  run_task_example task name t =
      delay_milliseconds k 3000 (create task (codes "SimpleTask") (some name) t).1

  -- The parameter of a worker is its number as a pointer.
  unfoldable pub run_mutex_example : (worker : ℕ) → Trace → Trace
  unfolding mutex_create task_create_pinned_to_core delay_milliseconds mutex_destroy
  run_mutex_example worker t =
      let (m, t1) = mutex_create k t in
      let t2 = (create worker (codes "Worker1") (some 1) t1).1 in
      let t3 = (create worker (codes "Worker2") (some 2) t2).1 in
      mutex_destroy m (delay_milliseconds k 1000 t3)

  unfoldable pub run_queue_example : (producer consumer : ℕ) → Trace → Trace
  unfolding queue_create task_create_pinned_to_core delay_milliseconds queue_delete
  run_queue_example producer consumer t =
      let (q, t1) = queue_create k 5 message_size t in
      let t2 = (create producer (codes "Prod") none t1).1 in
      let t3 = (create consumer (codes "Cons") none t2).1 in
      queue_delete q (delay_milliseconds k 1000 t3)

  -- `old` is the uninitialised handle, which is used where the creation fails.
  unfoldable pub run_suspend_example : (busy : ℕ) (old : Option ℕ) → Trace → Trace
  unfolding task_create_pinned_to_core delay_milliseconds task_suspend task_resume task_delete
  run_suspend_example busy old t =
      let (h, t1) = create busy (codes "Busy") none t in
      let target = created_or h old in
      let t2 = task_suspend target (delay_milliseconds k 1200 t1) in
      let t3 = task_resume target (delay_milliseconds k 1500 t2) in
      task_delete target (delay_milliseconds k 1000 t3)

  unfoldable pub run_memory_example : Trace → Trace
  unfolding port_malloc port_free
  run_memory_example t =
      let (p, u) = port_malloc k t in elim p [ none ↦ u | some a ↦ port_free (some a) u ]

  -- `app_main` up to its loop.
  unfoldable pub port_example_main :
      (task name worker producer consumer busy : ℕ) (old : Option ℕ) → Trace → Trace
  unfolding run_task_example run_mutex_example run_queue_example run_suspend_example
      run_memory_example
  port_example_main task name worker producer consumer busy old t = run_memory_example (
      run_suspend_example busy old (
        run_queue_example producer consumer
          (run_mutex_example worker (run_task_example task name t))))

  -- One round of the loop of `app_main`.
  unfoldable pub port_heartbeat : Trace → Trace
  unfolding delay_milliseconds
  port_heartbeat = delay_milliseconds k 5000
