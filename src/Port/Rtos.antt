-- ===== src/Port/Rtos.antt =====
-- components/EEAA/src/port/port_rtos_freertos.c: memory, mutexes, queues and tasks. A wrapper
-- takes the calls made so far and returns its result with the calls after it.
use edge_aware_tasks_rtos.Prelude.{ℕ, Option, none, some, ◌∷◌, Text, TextPtr, ◌==◌, if◌then◌else◌}
use edge_aware_tasks_rtos.Port.Kernel.{
  Kernel, Trace, TaskRequest, mutex_created, mutex_taken, mutex_given, mutex_deleted, allocated,
  freed, queue_created, queue_deleted, queue_sent, queue_received, task_created, task_deleted,
  task_suspended, task_resumed, delayed, delayed_until,
}

pub data Status : Type 0 where
  status_ok status_error : Status

abbrev pub wait_forever : ℕ
wait_forever = 0xFFFFFFFF

abbrev pub no_affinity : ℕ
no_affinity = 255

-- `eaPort_Mutex_Enter` and `eaPort_Mutex_Exit` skip a NULL mutex.
unfoldable pub mutex_enter : Option ℕ → Trace → Trace
mutex_enter none t = t
mutex_enter (some m) t = mutex_taken m ∷ t

unfoldable pub mutex_exit : Option ℕ → Trace → Trace
mutex_exit none t = t
mutex_exit (some m) t = mutex_given m ∷ t

unfoldable pub mutex_destroy : Option ℕ → Trace → Trace
mutex_destroy none t = t
mutex_destroy (some m) t = mutex_deleted m ∷ t

unfoldable pub port_free : Option ℕ → Trace → Trace
port_free none t = t
port_free (some p) t = freed p ∷ t

unfoldable pub queue_delete : Option ℕ → Trace → Trace
queue_delete none t = t
queue_delete (some q) t = queue_deleted q ∷ t

unfoldable pub task_delete : Option ℕ → Trace → Trace
task_delete h t = task_deleted h ∷ t

unfoldable pub task_suspend : Option ℕ → Trace → Trace
task_suspend h t = task_suspended h ∷ t

unfoldable pub task_resume : Option ℕ → Trace → Trace
task_resume h t = task_resumed h ∷ t

abbrev pub status_of {ℓ} : {A : Type ℓ} → Option A → Status
status_of none = status_error
status_of (some _) = status_ok

-- `xCoreID == eaPort_NO_AFFINITY`
abbrev pub core_of : ℕ → Option ℕ
core_of c = if c == no_affinity then none else some c

module _ (k : Kernel) where
  unfoldable pub mutex_create : Trace → Option ℕ × Trace
  mutex_create t = let m = k.mutex t in (m, mutex_created m ∷ t)

  unfoldable pub port_malloc : Trace → Option ℕ × Trace
  port_malloc t = let p = k.malloc t in (p, allocated p ∷ t)

  unfoldable pub queue_create : (len size : ℕ) → Trace → Option ℕ × Trace
  queue_create len size t = let q = k.queue t len size in (q, queue_created len size q ∷ t)

  wait_ticks : ℕ → ℕ
  wait_ticks ms = if ms == wait_forever then k.max_delay else k.ms_to_ticks ms

  -- A NULL queue or item is an error that makes no call.
  unfoldable pub queue_send : Option ℕ → Option Text → (wait_ms : ℕ) → Trace → Status × Trace
  unfolding wait_ticks
  queue_send (some q) (some item) wait_ms t =
      let ticks = wait_ticks wait_ms in (status_of (k.send t q item ticks), queue_sent q ticks ∷ t)
  queue_send _ _ wait_ms t = (status_error, t)

  -- The buffer is the second argument; it is written only on success.
  unfoldable pub queue_receive :
      Option ℕ → Option Text → (wait_ms : ℕ) → Trace → Status × Option Text × Trace
  unfolding wait_ticks
  queue_receive (some q) (some buffer) wait_ms t =
      let ticks = wait_ticks wait_ms in
      let got = k.receive t q ticks in
      (
        status_of got,
        elim got [ none ↦ some buffer | some item ↦ some item ],
        queue_received q ticks ∷ t,
      )
  queue_receive _ buffer wait_ms t = (status_error, buffer, t)

  unfoldable pub queue_messages_waiting : Option ℕ → Trace → ℕ
  queue_messages_waiting none t = 0
  queue_messages_waiting (some q) t = k.waiting t q

  -- The handle is written through `pxCreatedTask` on success.
  unfoldable pub task_create_pinned_to_core :
      (code : ℕ) (name : Text) (stack : ℕ) (parameter : Option ℕ) (priority core : ℕ)
      → Trace
      → Option ℕ × Trace
  task_create_pinned_to_core code name stack parameter priority core t =
      let request : TaskRequest = record {
        code = code;
        name = name;
        stack = stack;
        parameter = parameter;
        priority = priority;
        core = core_of core;
      } in
      let handle = k.task t request in (handle, task_created request handle ∷ t)

  unfoldable pub get_current_task_handle : Trace → Option ℕ
  get_current_task_handle t = k.current_task t

  unfoldable pub get_task_handle_by_name : TextPtr → Trace → Option ℕ
  get_task_handle_by_name none t = none
  get_task_handle_by_name (some name) t = k.task_by_name t name

  unfoldable pub delay_milliseconds : ℕ → Trace → Trace
  delay_milliseconds ms t = delayed (k.ms_to_ticks ms) ∷ t

  unfoldable pub delay_until : (previous ms : ℕ) → Trace → Trace
  delay_until previous ms t = delayed_until previous (k.ms_to_ticks ms) ∷ t
