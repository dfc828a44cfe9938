-- ===== src/TaskManager/Create.antt =====
-- `_CreateTaskPinnedToCore_` of task_manager.c, and the steps from which
-- `CreateEATaskPinnedToCoreEx` is built. A `goto error_cleanup` is the result `failed`.
pub mod Names
pub mod Progress
use edge_aware_tasks_rtos.Prelude.{
  ℕ, ℤ, pos, negsuc, minus_one, Bool, true, false, Option, none, some, ◌++◌, Text, TextPtr,
  print_int, leb, ◌==◌, if◌then◌else◌,
}
use edge_aware_tasks_rtos.Port.Rtos.{
  no_affinity, task_create_pinned_to_core, task_delete, queue_create,
}
use edge_aware_tasks_rtos.TaskManager.Types.{
  Segment, client_segment, server_segment, unique_segment, ExecutionSite, PairRuntime, PairSpec,
  FailureReason,
}
use edge_aware_tasks_rtos.TaskManager.Table.{
  MonitorEntry, clip, max_tasks, active_at, record_monitor, update_linkage, find_free_slot,
}
use edge_aware_tasks_rtos.TaskManager.Registry.{set_runtime, next_pair_id}
use edge_aware_tasks_rtos.TaskManager.System.{
  Env, System, on_table, enter_registry, exit_registry, registry_init, ensure_initialized,
}

pub data Attempt (A : Type 0) : Type 0 where
  done : A → System → Attempt A
  failed : FailureReason → System → Attempt A

abbrev pub Step : Type 0 → Type 0
Step A = System → Attempt A

abbrev pub and_then : {A B : Type 0} → Attempt A → (A → Step B) → Attempt B
and_then (done a s) f = f a s
and_then (failed r s) f = failed r s

infixl 5 ◌>>=◌ ◌>>◌
abbrev pub ◌>>=◌ : {A B : Type 0} → Step A → (A → Step B) → Step B
◌>>=◌ m f s = and_then (m s) f

abbrev pub ◌>>◌ : {B : Type 0} → Step (Unit {0}) → Step B → Step B
m >> k = m >>= λ _. k

abbrev pub act : (System → System) → Step (Unit {0})
act f s = done tt (f s)

abbrev pub fail_if : Bool → FailureReason → Step (Unit {0})
fail_if true r s = failed r s
fail_if false r s = done tt s

-- What `_CreateTaskPinnedToCore_` is given; `runtime` is also the task's parameter.
pub record TaskArgs : Type 0 where
  pub code : ℕ
  pub name : Text
  pub stack : ℕ
  pub runtime : ℕ
  pub priority : ℕ
  pub core : ℕ
  pub segment : Segment
  pub deadline_ms : ℕ
  pub delay_weight : ℕ
  pub energy_weight : ℕ
  pub host : TextPtr
  pub exec_site : ExecutionSite
  pub period : ℕ
  pub wcet : ℕ

abbrev pub runtime_at : System → ℕ → PairRuntime
runtime_at s a = (s.registry.slot a).runtime

abbrev pub peer_of : Segment → PairRuntime → ℤ
peer_of client_segment r = r.server_index
peer_of server_segment r = r.client_index
peer_of unique_segment r = minus_one

-- What is recorded for a task in slot `i`.
abbrev pub entry_of : TaskArgs → ℕ → System → MonitorEntry
entry_of a i s = record {
  name = a.name;
  host = a.host;
  pair_id = (runtime_at s a.runtime).pair_id;
  task_index = pos i;
  peer_index = peer_of a.segment (runtime_at s a.runtime);
  exec_site = a.exec_site;
  core = a.core;
  deadline_ms = a.deadline_ms;
  delay_weight = a.delay_weight;
  energy_weight = a.energy_weight;
  period = a.period;
  wcet = a.wcet;
}

-- An unlocked write to the runtime at `a`.
unfoldable pub modify_runtime : ℕ → (PairRuntime → PairRuntime) → System → System
unfolding set_runtime
modify_runtime a f s = record s { registry = set_runtime a (f (runtime_at s a)) s.registry }

module _ (e : Env) where
  -- After the kernel created the task `h`: the slot is tested again inside the lock.
  unfoldable pub populate_slot : TaskArgs → (i h : ℕ) → System → Option (ℕ × ℕ) × System
  unfolding on_table record_monitor task_delete
  populate_slot a i h s =
      if active_at s.table i
      then (let u = on_table (λ t. t) s in
          (none, record u { trace = task_delete (some h) u.trace }))
      else (some (i, h), on_table (record_monitor i (entry_of a i s)) s)

  -- The kernel call, outside the lock, during which other tasks may change the table.
  unfoldable pub started : TaskArgs → System → Option ℕ × System
  unfolding task_create_pinned_to_core
  started a s =
      let (h, t) =
        task_create_pinned_to_core e.kernel a.code a.name a.stack (some a.runtime) a.priority a.core
          s.trace in
      (h, record s { trace = t; table = e.others t s.table })

  unfoldable pub start_task : TaskArgs → ℕ → System → Option (ℕ × ℕ) × System
  unfolding started populate_slot
  start_task a i s =
      let (h, u) = started a s in elim h [ none ↦ (none, u) | some task ↦ populate_slot a i task u ]

  -- `_CreateTaskPinnedToCore_`: the slot and the handle, or none for -1.
  unfoldable pub create_task : TaskArgs → System → Option (ℕ × ℕ) × System
  unfolding ensure_initialized find_free_slot on_table start_task
  create_task a s0 =
      let s = ensure_initialized e.kernel s0 in
      let u = on_table (λ t. t) s in
      elim (find_free_slot s.table) [ none ↦ (none, u) | some i ↦ start_task a i u ]

  -- A task of the pair; `store` writes the handle through `outTaskHandle`.
  unfoldable pub task_step :
      (hook_name : Text)
      → FailureReason
      → TaskArgs
      → (store : ℕ → PairRuntime → PairRuntime) → Step ℕ
  unfolding create_task modify_runtime
  task_step name reason a store = do
    fail_if (e.hook reason name) reason
    λ s.
        let (made, u) = create_task a s in
        elim made [
          | none ↦ failed reason u
          | some (i, h) ↦ done i (modify_runtime a.runtime (store h) u)
        ]

  -- One of the two queues; NULL is stored too, and is a failure.
  unfoldable pub queue_step :
      (a : ℕ)
      → Text
      → PairSpec
      → FailureReason
      → (store : Option ℕ → PairRuntime → PairRuntime) → Step (Unit {0})
  unfolding queue_create modify_runtime
  queue_step a name spec reason store = do
    fail_if (e.hook reason name) reason
    λ s.
        let (q, t) = queue_create e.kernel spec.queue_depth spec.message_size s.trace in
        let u = modify_runtime a (store q) (record s { trace = t }) in
        elim q [ none ↦ failed reason u | some _ ↦ done tt u ]

  -- The critical section around `next_pair_id_locked`.
  unfoldable pub assign_pair_id : ℕ → System → System
  unfolding registry_init enter_registry exit_registry next_pair_id modify_runtime
  assign_pair_id a s0 =
      let s = enter_registry (registry_init e.kernel s0) in
      let (pid, next) = next_pair_id s.next_id in
      exit_registry
        (modify_runtime a (λ r. record r { pair_id = pid }) (record s { next_id = next }))

-- `update_monitor_linkage_by_index((size_t)index, …)`: a negative index is out of bounds as well.
unfoldable pub link_entry : ℤ → (pair_id : ℕ) → (task_index peer_index : ℤ) → System → System
unfolding on_table update_linkage
link_entry (pos i) pid ti pi s =
    if leb max_tasks i then s else on_table (update_linkage i pid ti pi) s
link_entry (negsuc _) pid ti pi s = s

-- `CoreID == eaPort_NO_AFFINITY ? 0 : CoreID`
abbrev pub actual_core : ℕ → ℕ
actual_core c = if c == no_affinity then 0 else c

-- `snprintf(…, "%s-cl-%i", TaskName, actualCore)` and its two siblings.
unfoldable pub base_name : (tag name : Text) → (core : ℕ) → Text
unfolding print_int
base_name tag name core = clip (name ++ tag ++ print_int (actual_core core))
