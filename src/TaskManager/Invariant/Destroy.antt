-- ===== src/TaskManager/Invariant/Destroy.antt =====
-- The task manager's invariant for the functions of Destroy.
use edge_aware_tasks_rtos.Prelude.{
  ℕ, refl, ℤ, negsuc, Bool, true, false, not, ◌||◌, Option, none, some, arith, inl, inr, Bool-cases,
  Option-cases, TextPtr, opt_eq, is_negative,
}
use edge_aware_tasks_rtos.Port.Kernel.{Kernel}
use edge_aware_tasks_rtos.Port.Locks.{lock_of, is_live}
use edge_aware_tasks_rtos.TaskManager.Types.{PairRuntime, CleanupMode, retired}
use edge_aware_tasks_rtos.TaskManager.Table.{clear_entries}
use edge_aware_tasks_rtos.TaskManager.Table.Count.{clear_entries-IsCounted}
use edge_aware_tasks_rtos.TaskManager.Registry.{slot_owned, set_runtime, is_cleaning}
use edge_aware_tasks_rtos.TaskManager.Registry.FreeList.{set_runtime-IsFreeList}
use edge_aware_tasks_rtos.TaskManager.System.{
  System, on_registry, registry_init, runtime_by_task_index,
}
use edge_aware_tasks_rtos.TaskManager.Access.{find_task_index}
use edge_aware_tasks_rtos.TaskManager.Destroy.{
  cleanup_task_handle, cleanup_queue_handle, clear_runtime_monitor_entries, delete_other,
  delete_self, torn_down, without_client, is_full_teardown, finish_full, finish_client,
  pair_destroy, pair_destroy_by_task_index, pair_destroy_by_name,
}
use edge_aware_tasks_rtos.TaskManager.Invariant.{
  Inv, on_table-Inv, on_registry-Inv, registry_init-Inv,
}
use edge_aware_tasks_rtos.TaskManager.Invariant.Calls.{chunks-set_runtime, find_task_index-Inv}
use edge_aware_tasks_rtos.TaskManager.Invariant.Reserve.{
  pair_runtime_release-Inv, runtime_mark-Inv, runtime_by_task_index-Inv,
}

pub cleanup_task_handle-Inv : (h : Option ℕ) {s : System} → Inv s → Inv (cleanup_task_handle h s)
unfolding cleanup_task_handle lock_of is_live
cleanup_task_handle-Inv none v = v
cleanup_task_handle-Inv (some h) {s} v = record {
  unlocked = ground (arith, v.unlocked);
  counted = v.counted;
  unused = v.unused;
  linked = v.linked;
  live = v.live;
}

pub cleanup_queue_handle-Inv : (h : Option ℕ) {s : System} → Inv s → Inv (cleanup_queue_handle h s)
unfolding cleanup_queue_handle lock_of is_live
cleanup_queue_handle-Inv none v = v
cleanup_queue_handle-Inv (some h) {s} v = record {
  unlocked = ground (arith, v.unlocked);
  counted = v.counted;
  unused = v.unused;
  linked = v.linked;
  live = v.live;
}

delete_other-Inv : (current h : Option ℕ) {s : System} → Inv s → Inv (delete_other current h s)
unfolding delete_other
delete_other-Inv current h {s} v = elim (Bool-cases (opt_eq h current)) [
  | inl e ↦ rw e v
  | inr e ↦ rw e (cleanup_task_handle-Inv h v)
]

delete_self-Inv : (current h : Option ℕ) {s : System} → Inv s → Inv (delete_self current h s)
unfolding delete_self
delete_self-Inv current h {s} v = elim (Bool-cases (opt_eq h current)) [
  | inl e ↦ rw e (cleanup_task_handle-Inv h v)
  | inr e ↦ rw e v
]

pub clear_runtime_monitor_entries-Inv :
    (i j : ℤ) (b : Bool) {s : System} → Inv s → Inv (clear_runtime_monitor_entries i j b s)
unfolding clear_runtime_monitor_entries
clear_runtime_monitor_entries-Inv i j b v =
    on_table-Inv (clear_entries i j b) (clear_entries-IsCounted i j b) v

module _ (k : Kernel) (a : ℕ) (current : Option ℕ) (r : PairRuntime) where
  finish_full-Inv : {s : System} → Inv s → Inv (finish_full k a current r s)
  unfolding finish_full
  finish_full-Inv v = delete_self-Inv current r.handler_server (
      delete_self-Inv current r.handler_client (
        pair_runtime_release-Inv k (some a) (
          runtime_mark-Inv k retired (some a) (
            clear_runtime_monitor_entries-Inv r.client_index r.server_index true (
              cleanup_queue_handle-Inv r.queue_server_client (
                cleanup_queue_handle-Inv r.queue_client_server (
                  delete_other-Inv current r.handler_server
                    (delete_other-Inv current r.handler_client v))))))))

  finish_client-Inv : {s : System} → Inv s → Inv (finish_client k a current r s)
  unfolding finish_client
  finish_client-Inv v = delete_self-Inv current r.handler_client (
      clear_runtime_monitor_entries-Inv r.client_index (negsuc 0) false
        (delete_other-Inv current r.handler_client v))

module _ (k : Kernel) where
  pub pair_destroy-Inv :
      (a : Option ℕ) (mode : CleanupMode) {s : System} → Inv s → Inv (pair_destroy k a mode s).1
  unfolding pair_destroy
  pair_destroy-Inv none mode v = v
  pair_destroy-Inv (some a) mode {s} v =
      elim (Bool-cases (not (slot_owned u.registry a) || not (u.registry.slot a).in_use)) [
        | inl e ↦ rw e refused
        | inr e ↦ rw e (elim (Bool-cases (is_cleaning r.lifecycle)) [
          | inl c ↦ rw c refused
          | inr c ↦ rw c (elim (Bool-cases (is_full_teardown mode r)) [
            | inl f ↦ rw f (finish_full-Inv k a _ r (written (torn_down r)))
            | inr f ↦ rw f (finish_client-Inv k a _ r (written (without_client r)))
          ])
        ])
      ]
    where
      u : System
      u = registry_init k s

      r : PairRuntime
      r = (u.registry.slot a).runtime

      w : Inv u
      w = registry_init-Inv k v

      refused : Inv (on_registry (λ g. g) u)
      refused = on_registry-Inv (λ g. g) w.unused w.linked refl w

      written : (p : PairRuntime) → Inv (on_registry (set_runtime a p) u)
      written p =
          on_registry-Inv (set_runtime a p) w.unused (set_runtime-IsFreeList a p w.linked)
            (chunks-set_runtime a p u.registry) w

  -- Destroying the pair of a task index, in either mode and whether or not it is found, keeps the
  -- task manager's invariant.
  pub pair_destroy_by_task_index-Inv :
      (i : ℤ) (mode : CleanupMode) {s : System}
      → Inv s
      → Inv (pair_destroy_by_task_index k i mode s).1
  unfolding pair_destroy_by_task_index
  pair_destroy_by_task_index-Inv i mode {s} v =
      let w = runtime_by_task_index-Inv k i v in
      elim (Option-cases (runtime_by_task_index k i s).0) [
        | inl e ↦ rw (e, pair_destroy_by_task_index) w
        | inr (a, e) ↦ rw (e, pair_destroy_by_task_index) (pair_destroy-Inv (some a) mode w)
      ]

  pub pair_destroy_by_name-Inv :
      (n : TextPtr) (mode : CleanupMode) {s : System}
      → Inv s
      → Inv (pair_destroy_by_name k n mode s).1
  unfolding pair_destroy_by_name
  pair_destroy_by_name-Inv n mode {s} v =
      let w = find_task_index-Inv k n v in
      elim (Bool-cases (is_negative (find_task_index k n s).0)) [
        | inl e ↦ rw e w
        | inr e ↦ rw e (pair_destroy_by_task_index-Inv (find_task_index k n s).0 mode w)
      ]
