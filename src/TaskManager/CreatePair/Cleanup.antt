-- ===== src/TaskManager/CreatePair/Cleanup.antt =====
-- The label `error_cleanup` of `CreateEATaskPinnedToCoreEx`.
use edge_aware_tasks_rtos.Prelude.{
  ℕ, ◌≡◌, ◌≢◌, refl, ℤ, pos, negsuc, minus_one, Bool, false, not, ◌&&◌, some, is_negative, arith,
  ap, ◌∙◌, sym, subst,
}
use edge_aware_tasks_rtos.Port.Kernel.{Kernel}
use edge_aware_tasks_rtos.TaskManager.Types.{failure_none, cleaning}
use edge_aware_tasks_rtos.TaskManager.Table.{
  Table, monitor_index_valid, clear_monitor_slot, clear_at, clear_entries,
}
use edge_aware_tasks_rtos.TaskManager.Registry.{
  Registry, slot_owned, release_slot, mark, set_runtime,
}
use edge_aware_tasks_rtos.TaskManager.Unchanged.{registry_init-Same}
use edge_aware_tasks_rtos.TaskManager.System.{
  Env, System, registry_init, on_registry, on_table, pair_runtime_release, runtime_mark,
}
use edge_aware_tasks_rtos.TaskManager.Destroy.{
  clear_runtime_monitor_entries, cleanup_task_handle, cleanup_queue_handle,
}
use edge_aware_tasks_rtos.TaskManager.Create.{Attempt, done, failed, runtime_at, modify_runtime}
use edge_aware_tasks_rtos.TaskManager.PairArgs.{Checked, drop_handles, drop_queues}
use edge_aware_tasks_rtos.TaskManager.CreatePair.{
  build_pair, error_cleanup, finish_attempt, finish_pair,
}

abbrev pub is_reserved : Registry → ℕ → Bool
is_reserved r a = slot_owned r a && (r.slot a).in_use

pub release_slot-reserved : (a : ℕ) (r : Registry) → is_reserved (release_slot a r) a ≡ false
unfolding release_slot slot_owned
release_slot-reserved a r = ground arith

clear_entries-cleared :
    (i j : ℤ) (t : Table)
    → (monitor_index_valid i (clear_entries i j (not (is_negative j)) t) ≡ false)
      × (monitor_index_valid j (clear_entries i j (not (is_negative j)) t) ≡ false)
unfolding clear_entries clear_at clear_monitor_slot monitor_index_valid
clear_entries-cleared (pos i) (pos j) t = ground arith
clear_entries-cleared (pos i) (negsuc j) t = ground arith
clear_entries-cleared (negsuc i) (pos j) t = ground arith
clear_entries-cleared (negsuc i) (negsuc j) t = ground arith

mark-indices :
    (a : ℕ) (r : Registry)
    → (((mark cleaning a r).slot a).runtime.client_index ≡ (r.slot a).runtime.client_index)
      × (((mark cleaning a r).slot a).runtime.server_index ≡ (r.slot a).runtime.server_index)
unfolding mark set_runtime
mark-indices a r = ground arith

runtime_mark-indices :
    (k : Kernel) (a : ℕ) (s : System)
    → ((runtime_at (runtime_mark k cleaning (some a) s) a).client_index
        ≡ (runtime_at s a).client_index)
      × ((runtime_at (runtime_mark k cleaning (some a) s) a).server_index
          ≡ (runtime_at s a).server_index)
unfolding runtime_mark on_registry
runtime_mark-indices k a s =
    subst
      (λ r.
        (((mark cleaning a r).slot a).runtime.client_index
          ≡ (s.registry.slot a).runtime.client_index)
        × (((mark cleaning a r).slot a).runtime.server_index
            ≡ (s.registry.slot a).runtime.server_index))
      (sym (registry_init-Same k s).registry) (mark-indices a s.registry)

-- After the clean-up of a failed attempt to create a pair the runtime is not reserved any more,
-- and the entries of its client and its server are not valid.
pub error_cleanup_releases :
    (e : Env) (c : Checked) (a : ℕ) (s : System)
    → (is_reserved (error_cleanup e c a s).registry a ≡ false)
      × (monitor_index_valid (runtime_at s a).client_index (error_cleanup e c a s).table ≡ false)
      × (monitor_index_valid (runtime_at s a).server_index (error_cleanup e c a s).table ≡ false)
unfolding error_cleanup pair_runtime_release on_registry clear_runtime_monitor_entries on_table
error_cleanup_releases e c a s =
    let s1 = runtime_mark e.kernel cleaning (some a) s in
    let r = runtime_at s1 a in
    let s2 =
      modify_runtime a drop_handles
        (cleanup_task_handle r.handler_client (cleanup_task_handle r.handler_server s1)) in
    let s3 = modify_runtime a drop_queues (
      cleanup_queue_handle r.queue_server_client (cleanup_queue_handle r.queue_client_server s2)) in
    let s4 =
      clear_runtime_monitor_entries r.client_index r.server_index (not (is_negative r.server_index))
        s3 in
    let kept = registry_init-Same e.kernel s4 in
    let same = runtime_mark-indices e.kernel a s in
    let cleared = clear_entries-cleared r.client_index r.server_index s3.table in
    (
      release_slot-reserved a (registry_init e.kernel s4).registry,
      ap (monitor_index_valid (runtime_at s a).client_index) kept.table
          ∙ ap (λ i. monitor_index_valid i s4.table) (sym same.0)
          ∙ cleared.0,
      ap (monitor_index_valid (runtime_at s a).server_index) kept.table
          ∙ ap (λ i. monitor_index_valid i s4.table) (sym same.1)
          ∙ cleared.1,
    )

-- An attempt to build a pair that ends in a failure has the task index -1, and the runtime that
-- was reserved for it is not reserved any more.
pub finish_pair_releases :
    (e : Env) (c : Checked) (a : ℕ) (s : System)
    → (finish_pair e c a s).0.failure_reason ≢ failure_none
    → ((finish_pair e c a s).0.task_index ≡ minus_one)
      × (is_reserved (finish_pair e c a s).1.registry a ≡ false)
unfolding finish_pair finish_attempt
finish_pair_releases e c a s h = released (build_pair e c a s) h
  where
    released :
        (t : Attempt (Unit {0}))
        → (finish_attempt e c a t).0.failure_reason ≢ failure_none
        → ((finish_attempt e c a t).0.task_index ≡ minus_one)
          × (is_reserved (finish_attempt e c a t).1.registry a ≡ false)
    released (done _ u) n = absurd (n refl)
    released (failed r u) n = (refl, (error_cleanup_releases e c a u).0)
