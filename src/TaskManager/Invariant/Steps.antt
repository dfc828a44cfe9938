-- ===== src/TaskManager/Invariant/Steps.antt =====
-- The public calls of the task manager as steps, from the state of the static initialisers on.
use edge_aware_tasks_rtos.Prelude.{
  ℕ, ◌≤◌, refl, ℤ, Option, some, TextPtr, arith, inl, inr, Bool-cases, none, [],
}
use edge_aware_tasks_rtos.Port.Locks.{lock_of, is_live}
use edge_aware_tasks_rtos.TaskManager.Types.{CleanupMode, ExecutionSite, Snapshot, TaskSpec}
use edge_aware_tasks_rtos.TaskManager.Spec.{spec_validate}
use edge_aware_tasks_rtos.TaskManager.Table.{clear_table, max_tasks, count_active}
use edge_aware_tasks_rtos.TaskManager.Table.Count.{count_active_le}
use edge_aware_tasks_rtos.TaskManager.Registry.FreeList.{empty_registry-IsFreeList}
use edge_aware_tasks_rtos.TaskManager.System.{
  Env, System, boot, task_manager_init, pair_runtime_release, runtime_by_task_index,
}
use edge_aware_tasks_rtos.TaskManager.Access.{
  find_task_index, get_task_snapshot_by_index, get_num_monitored_tasks, check_self_suspend,
  update_task_metrics_by_index, update_task_oe2el_by_index, remove_monitored_task_by_index,
}
use edge_aware_tasks_rtos.TaskManager.Pair.{
  pair_set_exec_site_by_index, pair_set_local_host_label_by_index,
}
use edge_aware_tasks_rtos.TaskManager.Destroy.{
  pair_destroy, pair_destroy_by_task_index, pair_destroy_by_name,
}
use edge_aware_tasks_rtos.TaskManager.Create.{TaskArgs, create_task}
use edge_aware_tasks_rtos.TaskManager.PairArgs.{PairArgs}
use edge_aware_tasks_rtos.TaskManager.CreatePair.{create_pair_ex, args_of_spec, create_from_spec_ex}
use edge_aware_tasks_rtos.TaskManager.Invariant.{Inv, IsLawful, task_manager_init-Inv}
use edge_aware_tasks_rtos.TaskManager.Invariant.Reserve.{
  pair_runtime_release-Inv, runtime_by_task_index-Inv,
}
use edge_aware_tasks_rtos.TaskManager.Invariant.Calls.{
  find_task_index-Inv, get_task_snapshot_by_index-Inv, get_num_monitored_tasks-Inv,
  check_self_suspend-Inv, update_task_metrics_by_index-Inv, update_task_oe2el_by_index-Inv,
  remove_monitored_task_by_index-Inv, pair_set_exec_site_by_index-Inv,
  pair_set_local_host_label_by_index-Inv,
}
use edge_aware_tasks_rtos.TaskManager.Invariant.Destroy.{
  pair_destroy-Inv, pair_destroy_by_task_index-Inv, pair_destroy_by_name-Inv,
}
use edge_aware_tasks_rtos.TaskManager.Invariant.Create.{create_task-Inv}
use edge_aware_tasks_rtos.TaskManager.Invariant.CreatePair.{create_pair_ex-Inv}

-- One call of the public interface, with any arguments.
pub data Call (e : Env) : System → System → Type 0 where
  initialised : (s : System) → Call e s (task_manager_init e.kernel s)
  created_task : (a : TaskArgs) (s : System) → Call e s (create_task e a s).1
  created_pair : (p : PairArgs) (s : System) → Call e s (create_pair_ex e p s).1
  created_from_spec : (p : Option TaskSpec) (s : System) → Call e s (create_from_spec_ex e p s).1
  destroyed :
      (a : Option ℕ) (m : CleanupMode) (s : System) → Call e s (pair_destroy e.kernel a m s).1
  destroyed_at :
      (i : ℤ) (m : CleanupMode) (s : System)
      → Call e s (pair_destroy_by_task_index e.kernel i m s).1
  destroyed_named :
      (n : TextPtr) (m : CleanupMode) (s : System)
      → Call e s (pair_destroy_by_name e.kernel n m s).1
  released : (a : Option ℕ) (s : System) → Call e s (pair_runtime_release e.kernel a s)
  runtime_looked_up : (i : ℤ) (s : System) → Call e s (runtime_by_task_index e.kernel i s).1
  found : (n : TextPtr) (s : System) → Call e s (find_task_index e.kernel n s).1
  snapshot_taken :
      (i : ℤ) (out : Option Snapshot) (s : System)
      → Call e s (get_task_snapshot_by_index e.kernel i out s).2
  counted_tasks : (s : System) → Call e s (get_num_monitored_tasks e.kernel s).1
  suspend_checked : (i : ℤ) (s : System) → Call e s (check_self_suspend e.kernel i s)
  metrics_updated :
      (i : ℤ) (oe2el cycles start_tick end_tick size : ℕ) (s : System)
      → Call e s (update_task_metrics_by_index e.kernel i oe2el cycles start_tick end_tick size s)
  oe2el_updated :
      (i : ℤ) (n : ℕ) (s : System) → Call e s (update_task_oe2el_by_index e.kernel i n s)
  removed : (i : ℤ) (s : System) → Call e s (remove_monitored_task_by_index e.kernel i s)
  site_set :
      (i : ℤ) (x : ExecutionSite) (s : System) → Call e s (pair_set_exec_site_by_index i x s).1
  label_set :
      (i : ℤ) (host : TextPtr) (s : System)
      → Call e s (pair_set_local_host_label_by_index e.kernel i host s).1

-- Any number of calls.
pub data Calls (e : Env) (s : System) : System → Type 0 where
  none_yet : Calls e s s
  one_more : {t u : System} → Calls e s t → Call e t u → Calls e s u

pub boot-Inv : Inv boot
unfolding lock_of is_live clear_table count_active
boot-Inv = record {
  unlocked = refl;
  counted = record { counted = refl };
  unused = [];
  linked = empty_registry-IsFreeList;
  live = λ a. refl;
}

module _ (e : Env) (law : IsLawful e) where
  pub create_from_spec_ex-Inv :
      (p : Option TaskSpec) {s : System} → Inv s → Inv (create_from_spec_ex e p s).1
  unfolding create_from_spec_ex
  create_from_spec_ex-Inv none v = v
  create_from_spec_ex-Inv (some p) {s} v = elim (Bool-cases (spec_validate (some p))) [
    | inl good ↦ rw good (create_pair_ex-Inv e law (args_of_spec e p) v)
    | inr bad ↦ rw bad v
  ]

  pub call-Inv : {s t : System} → Call e s t → Inv s → Inv t
  call-Inv (initialised s) v = task_manager_init-Inv e.kernel v
  call-Inv (created_task a s) v = create_task-Inv e law a v
  call-Inv (created_pair p s) v = create_pair_ex-Inv e law p v
  call-Inv (created_from_spec p s) v = create_from_spec_ex-Inv p v
  call-Inv (destroyed a m s) v = pair_destroy-Inv e.kernel a m v
  call-Inv (destroyed_at i m s) v = pair_destroy_by_task_index-Inv e.kernel i m v
  call-Inv (destroyed_named n m s) v = pair_destroy_by_name-Inv e.kernel n m v
  call-Inv (released a s) v = pair_runtime_release-Inv e.kernel a v
  call-Inv (runtime_looked_up i s) v = runtime_by_task_index-Inv e.kernel i v
  call-Inv (found n s) v = find_task_index-Inv e.kernel n v
  call-Inv (snapshot_taken i out s) v = get_task_snapshot_by_index-Inv e.kernel i out v
  call-Inv (counted_tasks s) v = get_num_monitored_tasks-Inv e.kernel v
  call-Inv (suspend_checked i s) v = check_self_suspend-Inv e.kernel i v
  call-Inv (metrics_updated i a b c d f s) v =
      update_task_metrics_by_index-Inv e.kernel i a b c d f v
  call-Inv (oe2el_updated i n s) v = update_task_oe2el_by_index-Inv e.kernel i n v
  call-Inv (removed i s) v = remove_monitored_task_by_index-Inv e.kernel i v
  call-Inv (site_set i x s) v = pair_set_exec_site_by_index-Inv i x v
  call-Inv (label_set i host s) v = pair_set_local_host_label_by_index-Inv e.kernel i host v

  Calls-Inv : {s t : System} → Calls e s t → Inv s → Inv t
  Calls-Inv none_yet v = v
  Calls-Inv (one_more cs c) v = call-Inv c (Calls-Inv cs v)

  -- After any sequence of public calls of the task manager from the static initialisers on, no
  -- mutex is held or misused, the task counter is the number of active entries and at most 16, the
  -- free list is the unused slots of the registry without repetition, and the chunks are exactly
  -- the allocated blocks; the allocator returns no live block and other tasks keep the counter.
  pub reachable-Inv :
      {s : System} → Calls e boot s → Inv s × (s.table.num_monitored_tasks ≤ max_tasks)
  reachable-Inv {s} cs =
      let v = Calls-Inv cs boot-Inv in
      (v, ground (arith, v.counted.counted, count_active_le s.table))
