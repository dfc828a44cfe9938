-- ===== src/Offloader/Routing/Apply.antt =====
-- The writes of `edge_offloader_apply_result` in offloader.c: when they succeed.
use edge_aware_tasks_rtos.Prelude.{
  ℕ, ◌≡◌, refl, ◌∙◌, ap, pos, Bool, true, false, ◌||◌, none, some, Text, TextPtr, arith, is_label,
}
use edge_aware_tasks_rtos.Port.Kernel.{Kernel}
use edge_aware_tasks_rtos.TaskManager.Table.{Table, monitor_index_valid}
use edge_aware_tasks_rtos.TaskManager.Registry.{runtime_from_task_index}
use edge_aware_tasks_rtos.TaskManager.Access.{change_cold}
use edge_aware_tasks_rtos.TaskManager.Pair.{
  update_monitor_local_host_label, pair_set_local_host_label_by_index, pair_set_exec_site_by_index,
  set_cold_label,
}
use edge_aware_tasks_rtos.TaskManager.System.{System, on_table, on_registry, runtime_by_task_index}
use edge_aware_tasks_rtos.TaskManager.Unchanged.{
  registry_init-Same, runtime_by_task_index-Same, runtime_by_task_index_lem,
}
use edge_aware_tasks_rtos.Offloader.Types.{Route}
use edge_aware_tasks_rtos.Offloader.State.{
  World, Offloader, state_ready, config_ready, resolve_host,
}
use edge_aware_tasks_rtos.Offloader.Cycle.{is_named, apply_writes, apply_result}

-- A table entry stays valid when its cold part changes.
change_cold-valid :
    (i : ℕ) (f : _) (t : Table)
    → monitor_index_valid (pos i) t ≡ true
    → monitor_index_valid (pos i) (change_cold f (pos i) t) ≡ true
unfolding change_cold monitor_index_valid
change_cold-valid i f t h = ground (arith, h)

-- A ready state has a host label for each route.
resolve_host-label :
    (r : Route) (o : Offloader) → state_ready o ≡ true → is_label (resolve_host r o) ≡ true
unfolding state_ready config_ready resolve_host
resolve_host-label r o h = ground (arith, h)

label_text : (p : TextPtr) → is_label p ≡ true → (host : Text) × (p ≡ some host)
label_text (some host) h = (host, refl)
label_text none h = ground (arith, h)

or_true : (b : Bool) → (b || true) ≡ true
or_true true = refl
or_true false = refl

module _ (k : Kernel) where
  -- The label of a valid entry can be set, and the entry stays valid.
  labelled :
      (i : ℕ) (p : TextPtr) (s : System)
      → is_label p ≡ true
      → monitor_index_valid (pos i) s.table ≡ true
      → ((pair_set_local_host_label_by_index k (pos i) p s).0 ≡ true)
        × (monitor_index_valid (pos i) (pair_set_local_host_label_by_index k (pos i) p s).1.table
            ≡ true)
  unfolding pair_set_local_host_label_by_index update_monitor_local_host_label on_table on_registry
  labelled i none s l h = ground (arith, l)
  labelled i (some host) s l h =
      let u = on_table (change_cold (set_cold_label host) (pos i)) s in
      let same = registry_init-Same k u in
      (
        rw (l, h) (or_true _),
        rw l (
            ap (monitor_index_valid (pos i)) same.table
            ∙ (change_cold-valid i (set_cold_label host) s.table h)),
      )

  apply_writes_succeeds :
      (i : ℕ) (r : Route) (p : TextPtr) (w : World)
      → is_label p ≡ true
      → monitor_index_valid (pos i) w.system.table ≡ true
      → (apply_writes k (record { task_index = pos i; route = r }) p w).0 ≡ true
  unfolding apply_writes pair_set_exec_site_by_index
  apply_writes_succeeds i r p w l h =
      let (done, valid) = labelled i p w.system l h in rw done (rw valid refl)

  pub apply_result_succeeds :
      (i a : ℕ) (r : Route) (w : World)
      → state_ready w.offloader ≡ true
      → is_named r ≡ true
      → runtime_from_task_index (pos i) w.system.registry ≡ some a
      → monitor_index_valid (pos i) w.system.table ≡ true
      → (apply_result k (some (record { task_index = pos i; route = r })) w).0 ≡ true
  unfolding apply_result
  apply_result_succeeds i a r w ready named found valid =
      let u = record w { system = (runtime_by_task_index k (pos i) w.system).1 } in
      let host = resolve_host r w.offloader in
      rw ready (
        rw (runtime_by_task_index_lem k (pos i) w.system, found, named)
          (rw (resolve_host-label r w.offloader ready) (
            apply_writes_succeeds i r host u (resolve_host-label r w.offloader ready) (
              ap (monitor_index_valid (pos i)) (runtime_by_task_index-Same k (pos i) w.system).table
              ∙ valid))))
