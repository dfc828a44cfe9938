-- ===== src/Facade/Status/Reported.antt =====
-- What `edge_runtime_status` of runtime.c reports of the task manager.
use edge_aware_tasks_rtos.Prelude.{
  ℕ, zero, suc, ◌+◌, ◌≤◌, count_index, ◌≡◌, refl, sym, ◌∙◌, ap, subst, true, ◌&&◌, is_some, length,
  arith, inl, inr, Bool-cases, if◌then◌else◌,
}
use edge_aware_tasks_rtos.Port.Kernel.{Kernel}
use edge_aware_tasks_rtos.TaskManager.Table.{
  Table, max_tasks, active_at, monitor_index_valid, count_active,
}
use edge_aware_tasks_rtos.TaskManager.Registry.{Registry}
use edge_aware_tasks_rtos.TaskManager.Access.{get_num_monitored_tasks, read_table}
use edge_aware_tasks_rtos.TaskManager.System.{System, on_table}
use edge_aware_tasks_rtos.TaskManager.Unchanged.{Same, Same-trans, ensure_initialized_ready}
use edge_aware_tasks_rtos.Offloader.Collection.{eligible, eligible_from}
use edge_aware_tasks_rtos.Offloader.Collection.Filled.{collect_candidates-count}
use edge_aware_tasks_rtos.Facade.{App}
use edge_aware_tasks_rtos.Facade.Status.{active_config, runtime_status}

-- An eligible entry is active.
eligible_from_le :
    (n i : ℕ) (t : Table) (r : Registry)
    → length (eligible_from n i t r) ≤ count_index (active_at t) n i
unfolding eligible_from eligible count_index monitor_index_valid
eligible_from_le zero i t r = omega arith
eligible_from_le (suc n) i t r = ground (arith, eligible_from_le n (i + 1) t r)

eligible_le : (t : Table) (r : Registry) → length (eligible_from max_tasks 0 t r) ≤ count_active t
unfolding count_active
eligible_le t r = eligible_from_le max_tasks 0 t r

module _ (k : Kernel) where
  get_num_monitored_tasks_lem :
      (s : System)
      → is_some s.table_mux ≡ true
      → ((get_num_monitored_tasks k s).0 ≡ count_active s.table)
        × Same (get_num_monitored_tasks k s).1 s
  unfolding get_num_monitored_tasks read_table on_table
  get_num_monitored_tasks_lem s ready =
      let e = ensure_initialized_ready k s ready in
      (
        ap (λ u. count_active u.table) e,
        record {
          table = ap (λ u. u.table) e;
          registry = ap (λ u. u.registry) e;
          initialised = ap (λ u. u.table_mux) e;
        },
      )

  -- For an initialised table the status reports the number of active entries, and as candidates
  -- the number of the eligible ones if the runtime runs with offloading enabled and 0 otherwise,
  -- which is never more; it changes neither the table, the registry, the offloader nor whether the
  -- runtime runs.
  pub runtime_status_reports :
      (a : App)
      → is_some a.world.system.table_mux ≡ true
      → ((runtime_status k a).0.monitored_tasks ≡ count_active a.world.system.table)
        × ((runtime_status k a).0.client_candidates ≡ (
            if a.running && (active_config a).offloader.enabled
            then length (eligible_from max_tasks 0 a.world.system.table a.world.system.registry)
            else 0))
        × ((runtime_status k a).0.client_candidates ≤ (runtime_status k a).0.monitored_tasks)
        × Same (runtime_status k a).1.world.system a.world.system
        × ((runtime_status k a).1.world.offloader ≡ a.world.offloader)
        × ((runtime_status k a).1.running ≡ a.running)
  unfolding runtime_status
  runtime_status_reports a ready =
      let s = a.world.system in
      let (tasks, same) = get_num_monitored_tasks_lem s ready in
      let u = (get_num_monitored_tasks k s).1 in
      let (clients, kept) = collect_candidates-count k u (ap is_some same.initialised ∙ ready) in
      let counted =
        clients
        ∙ ap (λ t. length (eligible_from max_tasks 0 t u.registry)) same.table
        ∙ ap (λ r. length (eligible_from max_tasks 0 s.table r)) same.registry in
      let bound =
        subst (λ x. x ≤ (get_num_monitored_tasks k s).0) (sym counted)
          (subst (λ x. length (eligible_from max_tasks 0 s.table s.registry) ≤ x) (sym tasks)
            (eligible_le s.table s.registry)) in
      elim (Bool-cases (a.running && (active_config a).offloader.enabled)) [
        | inr quiet ↦ rw (quiet, runtime_status) (tasks, refl, omega arith, same, refl, refl)
        | inl looks ↦
            rw (looks, runtime_status) (tasks, counted, bound, Same-trans kept same, refl, refl)
      ]
