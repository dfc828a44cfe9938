-- ===== src/TaskManager/Destroy/Released.antt =====
-- What the destruction of a pair leaves behind, and that a second one finds nothing to do.
use edge_aware_tasks_rtos.Prelude.{
  ℕ, ℤ, pos, negsuc, ◌≡◌, refl, sym, ◌∙◌, ap, true, false, Option, none, some, arith, inl, inr,
  Bool-cases, opt_eq, ◌||◌, not,
}
use edge_aware_tasks_rtos.Port.Kernel.{Kernel}
use edge_aware_tasks_rtos.Port.Rtos.{get_current_task_handle}
use edge_aware_tasks_rtos.TaskManager.Types.{PairRuntime, CleanupMode, cleanup_pair, retired}
use edge_aware_tasks_rtos.TaskManager.Table.{
  Table, monitor_index_valid, clear_entries, clear_at, clear_monitor_slot,
}
use edge_aware_tasks_rtos.TaskManager.Registry.{Registry, is_cleaning, slot_owned, set_runtime}
use edge_aware_tasks_rtos.TaskManager.System.{
  System, on_table, on_registry, registry_init, runtime_mark, pair_runtime_release,
}
use edge_aware_tasks_rtos.TaskManager.Unchanged.{Same, Same-trans, registry_init-Same}
use edge_aware_tasks_rtos.TaskManager.CreatePair.Cleanup.{is_reserved, release_slot-reserved}
use edge_aware_tasks_rtos.TaskManager.Destroy.{
  cleanup_task_handle, cleanup_queue_handle, clear_runtime_monitor_entries, torn_down, delete_other,
  delete_self, finish_full, pair_destroy,
}

cleanup_task_handle-Same : (h : Option ℕ) (s : System) → Same (cleanup_task_handle h s) s
unfolding cleanup_task_handle
cleanup_task_handle-Same none s = record { table = refl; registry = refl; initialised = refl }
cleanup_task_handle-Same (some h) s = record { table = refl; registry = refl; initialised = refl }

delete_self-Same : (current h : Option ℕ) (s : System) → Same (delete_self current h s) s
unfolding delete_self
delete_self-Same current h s = elim (Bool-cases (opt_eq h current)) [
  | inl e ↦ rw (e, delete_self) (cleanup_task_handle-Same h s)
  | inr e ↦ rw (e, delete_self) (record { table = refl; registry = refl; initialised = refl })
]

refusal :
    (g : Registry) (a : ℕ) → (not (slot_owned g a) || not (g.slot a).in_use) ≡ not (is_reserved g a)
refusal g a = ground arith

clear_both :
    (i j : ℤ) (t : Table)
    → (monitor_index_valid i (clear_entries i j true t) ≡ false)
      × (monitor_index_valid j (clear_entries i j true t) ≡ false)
unfolding clear_entries clear_at clear_monitor_slot monitor_index_valid
clear_both (pos i) (pos j) t = ground arith
clear_both (pos i) (negsuc j) t = ground arith
clear_both (negsuc i) (pos j) t = ground arith
clear_both (negsuc i) (negsuc j) t = ground arith

module _ (k : Kernel) where
  -- Neither the mark nor the release touches the table.
  retired-table :
      (a : ℕ) (s : System)
      → (pair_runtime_release k (some a) (runtime_mark k retired (some a) s)).table ≡ s.table
  unfolding pair_runtime_release runtime_mark on_registry
  retired-table a s =
      (registry_init-Same k (runtime_mark k retired (some a) s)).table
      ∙ (registry_init-Same k s).table

  released :
      (a : ℕ) (s : System) → is_reserved (pair_runtime_release k (some a) s).registry a ≡ false
  unfolding pair_runtime_release on_registry
  released a s = release_slot-reserved a (registry_init k s).registry

  cleared :
      (i j : ℤ) (s : System)
      → (monitor_index_valid i (clear_runtime_monitor_entries i j true s).table ≡ false)
        × (monitor_index_valid j (clear_runtime_monitor_entries i j true s).table ≡ false)
  unfolding clear_runtime_monitor_entries on_table
  cleared i j s = clear_both i j s.table

  finish_full_lem :
      (a : ℕ) (current : Option ℕ) (r : PairRuntime) (s : System)
      → (is_reserved (finish_full k a current r s).registry a ≡ false)
        × (monitor_index_valid r.client_index (finish_full k a current r s).table ≡ false)
        × (monitor_index_valid r.server_index (finish_full k a current r s).table ≡ false)
  unfolding finish_full
  finish_full_lem a current r s0 =
      let s2 = delete_other current r.handler_server (delete_other current r.handler_client s0) in
      let s4 =
        cleanup_queue_handle r.queue_server_client
          (cleanup_queue_handle r.queue_client_server s2) in
      let s5 = clear_runtime_monitor_entries r.client_index r.server_index true s4 in
      let s6 = runtime_mark k retired (some a) s5 in
      let s7 = pair_runtime_release k (some a) s6 in
      let s8 = delete_self current r.handler_client s7 in
      let same =
        Same-trans (delete_self-Same current r.handler_server s8)
          (delete_self-Same current r.handler_client s7) in
      let table = same.table ∙ retired-table a s5 in
      let entries = cleared r.client_index r.server_index s4 in
      (
        ap (λ g. is_reserved g a) same.registry ∙ released a s6,
        ap (monitor_index_valid r.client_index) table ∙ entries.0,
        ap (monitor_index_valid r.server_index) table ∙ entries.1,
      )

  -- Without a reservation there is nothing to destroy.
  pair_destroy_refused :
      (a : ℕ) (mode : CleanupMode) (s : System)
      → is_reserved s.registry a ≡ false
      → Same (pair_destroy k (some a) mode s).1 s
  unfolding pair_destroy on_registry
  pair_destroy_refused a mode s h =
      let u = registry_init k s in
      let same = registry_init-Same k s in
      let nobody =
        refusal u.registry a ∙ ap (λ g. not (is_reserved g a)) same.registry ∙ ap not h in
      rw (nobody, pair_destroy)
        (record { table = same.table; registry = same.registry; initialised = same.initialised })

  -- The destruction of a pair whose runtime is reserved and not being cleaned up already leaves
  -- the runtime not reserved and the indices of its client and its server not valid, and a second
  -- destruction, in either mode, changes neither the table nor the registry.
  pub pair_destroy_releases :
      (a : ℕ) (mode : CleanupMode) (s : System)
      → is_reserved s.registry a ≡ true
      → is_cleaning (s.registry.slot a).runtime.lifecycle ≡ false
      → (is_reserved (pair_destroy k (some a) cleanup_pair s).1.registry a ≡ false)
        × (monitor_index_valid
              (s.registry.slot a).runtime.client_index
              (pair_destroy k (some a) cleanup_pair s).1.table
            ≡ false)
        × (monitor_index_valid
              (s.registry.slot a).runtime.server_index
              (pair_destroy k (some a) cleanup_pair s).1.table
            ≡ false)
        × Same
            (pair_destroy k (some a) mode (pair_destroy k (some a) cleanup_pair s).1).1
            (pair_destroy k (some a) cleanup_pair s).1
  unfolding pair_destroy on_registry
  pair_destroy_releases a mode s owned usable =
      let u = registry_init k s in
      let same = (registry_init-Same k s).registry in
      let r = (u.registry.slot a).runtime in
      let known = refusal u.registry a ∙ ap (λ g. not (is_reserved g a)) same ∙ ap not owned in
      let now = ap (λ g. is_cleaning (g.slot a).runtime.lifecycle) same ∙ usable in
      let current = get_current_task_handle k u.trace in
      let full = on_registry (set_runtime a (torn_down r)) u in
      let done : (pair_destroy k (some a) cleanup_pair s).1 ≡ finish_full k a current r full =
        rw (known, pair_destroy) (rw now refl) in
      let t = (pair_destroy k (some a) cleanup_pair s).1 in
      let left = finish_full_lem a current r full in
      let freed = ap (λ x. is_reserved x.registry a) done ∙ left.0 in
      (
        freed,
        ap (λ g. monitor_index_valid (g.slot a).runtime.client_index t.table) (sym same)
            ∙ ap (λ x. monitor_index_valid r.client_index x.table) done
            ∙ left.1,
        ap (λ g. monitor_index_valid (g.slot a).runtime.server_index t.table) (sym same)
            ∙ ap (λ x. monitor_index_valid r.server_index x.table) done
            ∙ left.2,
        pair_destroy_refused a mode (pair_destroy k (some a) cleanup_pair s).1 freed,
      )
