-- ===== src/TaskManager/Destroy.antt =====
-- `edge_task_pair_destroy` of task_manager.c and its two look-ups by index and by name.
pub mod Released
use edge_aware_tasks_rtos.Prelude.{
  ℕ, ℤ, minus_one, Bool, true, false, not, ◌&&◌, ◌||◌, Option, none, some, TextPtr, is_some,
  is_negative, opt_eq, if◌then◌else◌,
}
use edge_aware_tasks_rtos.Port.Kernel.{Kernel}
use edge_aware_tasks_rtos.Port.Rtos.{task_delete, queue_delete, get_current_task_handle}
use edge_aware_tasks_rtos.TaskManager.Types.{
  PairRuntime, CleanupMode, cleanup_client_only, cleanup_pair, cleaning, retired,
}
use edge_aware_tasks_rtos.TaskManager.Table.{clear_entries}
use edge_aware_tasks_rtos.TaskManager.Registry.{slot_owned, set_runtime, is_cleaning}
use edge_aware_tasks_rtos.TaskManager.System.{
  System, on_table, on_registry, enter_registry, exit_registry, registry_init, runtime_mark,
  pair_runtime_release, runtime_by_task_index,
}
use edge_aware_tasks_rtos.TaskManager.Access.{find_task_index}

-- `cleanup_task_handle` and `cleanup_queue_handle` on a handle that the caller then sets to NULL.
unfoldable pub cleanup_task_handle : Option ℕ → System → System
unfolding task_delete
cleanup_task_handle none s = s
cleanup_task_handle (some h) s = record s { trace = task_delete (some h) s.trace }

unfoldable pub cleanup_queue_handle : Option ℕ → System → System
unfolding queue_delete
cleanup_queue_handle none s = s
cleanup_queue_handle (some q) s = record s { trace = queue_delete (some q) s.trace }

-- `clear_runtime_monitor_entries`
unfoldable pub clear_runtime_monitor_entries : (client server : ℤ) → Bool → System → System
unfolding on_table clear_entries
clear_runtime_monitor_entries c v include_server = on_table (clear_entries c v include_server)

-- The runtime as the critical section of a full teardown, or of a client's, leaves it.
abbrev pub torn_down : PairRuntime → PairRuntime
torn_down r = record r {
  queue_client_server = none;
  queue_server_client = none;
  handler_client = none;
  handler_server = none;
  client_index = minus_one;
  server_index = minus_one;
  lifecycle = cleaning;
}

abbrev pub without_client : PairRuntime → PairRuntime
without_client r = record r { handler_client = none; client_index = minus_one }

abbrev is_pair : CleanupMode → Bool
is_pair cleanup_pair = true
is_pair cleanup_client_only = false

abbrev pub is_full_teardown : CleanupMode → PairRuntime → Bool
is_full_teardown mode r =
    is_pair mode || (not (is_some r.handler_server) && is_negative r.server_index)

-- `if (handle != NULL && handle != current) cleanup`, and the delete of the running task itself.
unfoldable pub delete_other : (current handle : Option ℕ) → System → System
unfolding cleanup_task_handle
delete_other current h s = if opt_eq h current then s else cleanup_task_handle h s

unfoldable pub delete_self : (current handle : Option ℕ) → System → System
unfolding cleanup_task_handle
delete_self current h s = if opt_eq h current then cleanup_task_handle h s else s

module _ (k : Kernel) (a : ℕ) (current : Option ℕ) (r : PairRuntime) where
  -- After the critical section that took the handles out of the runtime `r` at `a`.
  unfoldable pub finish_full : System → System
  unfolding delete_other delete_self cleanup_queue_handle clear_runtime_monitor_entries runtime_mark
      pair_runtime_release
  finish_full s0 =
      let s1 = delete_other current r.handler_client s0 in
      let s2 = delete_other current r.handler_server s1 in
      let s3 = cleanup_queue_handle r.queue_client_server s2 in
      let s4 = cleanup_queue_handle r.queue_server_client s3 in
      let s5 = clear_runtime_monitor_entries r.client_index r.server_index true s4 in
      let s6 = runtime_mark k retired (some a) s5 in
      let s7 = pair_runtime_release k (some a) s6 in
      let s8 = delete_self current r.handler_client s7 in delete_self current r.handler_server s8

  unfoldable pub finish_client : System → System
  unfolding delete_other delete_self clear_runtime_monitor_entries
  finish_client s0 =
      let s1 = delete_other current r.handler_client s0 in
      let s2 = clear_runtime_monitor_entries r.client_index minus_one false s1 in
      delete_self current r.handler_client s2

module _ (k : Kernel) where
  -- The result is 0 for a NULL runtime and 1 otherwise.
  unfoldable pub pair_destroy : Option ℕ → CleanupMode → System → ℕ × System
  unfolding registry_init enter_registry exit_registry slot_owned set_runtime finish_full
      finish_client get_current_task_handle
  pair_destroy none mode s = (0, s)
  pair_destroy (some a) mode s0 =
      let s = registry_init k s0 in
      let current = get_current_task_handle k s.trace in
      let r = (s.registry.slot a).runtime in
      let refused = on_registry (λ g. g) s in
      let full = on_registry (set_runtime a (torn_down r)) s in
      let partial = on_registry (set_runtime a (without_client r)) s in
      if not (slot_owned s.registry a) || not (s.registry.slot a).in_use
      then (1, refused)
      else if is_cleaning r.lifecycle
      then (1, refused)
      else if is_full_teardown mode r
      then (1, finish_full k a current r full)
      else (1, finish_client k a current r partial)

  unfoldable pub pair_destroy_by_task_index : ℤ → CleanupMode → System → ℕ × System
  unfolding runtime_by_task_index pair_destroy
  pair_destroy_by_task_index i mode s =
      let (runtime, u) = runtime_by_task_index k i s in
      elim runtime [ none ↦ (1, u) | some a ↦ pair_destroy (some a) mode u ]

  unfoldable pub pair_destroy_by_name : TextPtr → CleanupMode → System → ℕ × System
  unfolding find_task_index pair_destroy_by_task_index
  pair_destroy_by_name name mode s =
      let (i, u) = find_task_index k name s in
      if is_negative i then (1, u) else pair_destroy_by_task_index i mode u
