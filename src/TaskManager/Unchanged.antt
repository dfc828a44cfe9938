-- ===== src/TaskManager/Unchanged.antt =====
-- The look-ups of task_manager.c that leave the table and the registry as they are.
use edge_aware_tasks_rtos.Prelude.{
  ◌≡◌, refl, ◌∙◌, ap, ℤ, true, some, is_some, arith, inl, inr, Option-cases,
}
use edge_aware_tasks_rtos.Port.Kernel.{Kernel}
use edge_aware_tasks_rtos.TaskManager.Types.{Snapshot}
use edge_aware_tasks_rtos.TaskManager.Registry.{runtime_from_task_index}
use edge_aware_tasks_rtos.TaskManager.System.{
  System, on_table, on_registry, registry_init, ensure_initialized, runtime_by_task_index,
}
use edge_aware_tasks_rtos.TaskManager.Access.{
  zero_snapshot, snapshot_of, read_entry, read_table, get_task_snapshot_by_index,
}

-- Two systems with the same table, initialised or not alike, and the same registry.
pub record Same (s t : System) : Type 0 where
  pub table : s.table ≡ t.table
  pub registry : s.registry ≡ t.registry
  pub initialised : s.table_mux ≡ t.table_mux

pub Same-trans : {s t u : System} → Same s t → Same t u → Same s u
Same-trans a b = record {
  table = a.table ∙ b.table;
  registry = a.registry ∙ b.registry;
  initialised = a.initialised ∙ b.initialised;
}

module _ (k : Kernel) where
  pub registry_init-Same : (s : System) → Same (registry_init k s) s
  unfolding registry_init
  registry_init-Same s = elim (Option-cases s.registry_mux) [
    | inl e ↦ rw (e, registry_init) (record { table = refl; registry = refl; initialised = refl })
    | inr (m, e) ↦
        rw (e, registry_init) (record { table = refl; registry = refl; initialised = refl })
  ]

  pub runtime_by_task_index-Same : (i : ℤ) (s : System) → Same (runtime_by_task_index k i s).1 s
  unfolding runtime_by_task_index on_registry
  runtime_by_task_index-Same i s =
      let h = registry_init-Same s in
      record { table = h.table; registry = h.registry; initialised = h.initialised }

  -- The look-up finds what the registry holds.
  pub runtime_by_task_index_lem :
      (i : ℤ) (s : System) → (runtime_by_task_index k i s).0 ≡ runtime_from_task_index i s.registry
  unfolding runtime_by_task_index
  runtime_by_task_index_lem i s = ap (runtime_from_task_index i) (registry_init-Same s).registry

  pub ensure_initialized_ready :
      (s : System) → is_some s.table_mux ≡ true → ensure_initialized k s ≡ s
  unfolding ensure_initialized
  ensure_initialized_ready s h = elim (Option-cases s.table_mux) [
    | inl none_yet ↦ ground (arith, h, none_yet)
    | inr (m, ready) ↦ rw ready refl
  ]

  -- The snapshot of an entry of an initialised table.
  pub get_task_snapshot_by_index_lem :
      (i : ℤ) (old : Snapshot) (s : System)
      → is_some s.table_mux ≡ true
      → ((get_task_snapshot_by_index k i (some old) s).0
          ≡ (read_entry zero_snapshot snapshot_of i s.table).valid)
        × ((get_task_snapshot_by_index k i (some old) s).1
            ≡ some (read_entry zero_snapshot snapshot_of i s.table))
        × Same (get_task_snapshot_by_index k i (some old) s).2 s
  unfolding get_task_snapshot_by_index read_table on_table
  get_task_snapshot_by_index_lem i old s h =
      let e = ensure_initialized_ready s h in
      (
        ap (λ u. (read_entry zero_snapshot snapshot_of i u.table).valid) e,
        ap (λ u. some (read_entry zero_snapshot snapshot_of i u.table)) e,
        record {
          table = ap (λ u. u.table) e;
          registry = ap (λ u. u.registry) e;
          initialised = ap (λ u. u.table_mux) e;
        },
      )
