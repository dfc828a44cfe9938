-- ===== src/TaskManager/System.antt =====
-- The state of task_manager.c, its two mutexes, initialisation, and the registry functions with
-- their locking. A function returns its result with the state after it.
use edge_aware_tasks_rtos.Prelude.{
  ℕ, ℤ, Bool, true, false, Option, none, some, List, [], ◌∷◌, Text, if◌then◌else◌,
}
use edge_aware_tasks_rtos.Port.Kernel.{Kernel, Trace}
use edge_aware_tasks_rtos.Port.Rtos.{mutex_enter, mutex_exit, mutex_create, port_malloc, port_free}
use edge_aware_tasks_rtos.TaskManager.Types.{FailureReason, Lifecycle}
use edge_aware_tasks_rtos.TaskManager.Table.{Table, zero_table, clear_table}
use edge_aware_tasks_rtos.TaskManager.Registry.{
  Registry, empty_registry, runtime_from_task_index, mark, add_chunk, take_slot, release_slot,
  clear_registry,
}

-- What is outside the file: the kernel, the test hook that a build may override, and what other
-- tasks do to the table while `_CreateTaskPinnedToCore_` is outside the lock.
pub record Env : Type 0 where
  pub kernel : Kernel
  pub hook : FailureReason → Text → Bool
  pub others : Trace → Table → Table

-- The weak definition of `edge_task_manager_test_hook_should_fail_creation`.
abbrev pub default_hook : FailureReason → Text → Bool
default_hook reason name = false

pub record System : Type 0 where
  pub trace : Trace
  pub table : Table
  pub table_mux : Option ℕ
  pub next_id : ℕ
  pub registry : Registry
  pub registry_mux : Option ℕ

-- The static initialisers.
abbrev pub boot : System
boot = record {
  trace = [];
  table = zero_table;
  table_mux = none;
  next_id = 1;
  registry = empty_registry;
  registry_mux = none;
}

unfoldable pub enter_table : System → System
unfolding mutex_enter
enter_table s = record s { trace = mutex_enter s.table_mux s.trace }

unfoldable pub exit_table : System → System
unfolding mutex_exit
exit_table s = record s { trace = mutex_exit s.table_mux s.trace }

unfoldable pub enter_registry : System → System
unfolding mutex_enter
enter_registry s = record s { trace = mutex_enter s.registry_mux s.trace }

unfoldable pub exit_registry : System → System
unfolding mutex_exit
exit_registry s = record s { trace = mutex_exit s.registry_mux s.trace }

-- A critical section that changes the table, or the registry.
unfoldable pub on_table : (Table → Table) → System → System
unfolding enter_table exit_table
on_table f s = exit_table (record (enter_table s) { table = f s.table })

unfoldable pub on_registry : (Registry → Registry) → System → System
unfolding enter_registry exit_registry
on_registry f s = exit_registry (record (enter_registry s) { registry = f s.registry })

-- The calls of `eaPort_Free` in `runtime_registry_clear_locked`.
unfoldable pub free_chunks : List ℕ → Trace → Trace
unfolding port_free
free_chunks [] t = t
free_chunks (c ∷ cs) t = free_chunks cs (port_free (some c) t)

module _ (k : Kernel) where
  -- `runtime_registry_init`
  unfoldable pub registry_init : System → System
  unfolding mutex_create
  registry_init s = elim s.registry_mux [
    | some _ ↦ s
    | none ↦ let (m, t) = mutex_create k s.trace in record s { trace = t; registry_mux = m }
  ]

  unfoldable pub table_mux_init : System → System
  unfolding mutex_create
  table_mux_init s = elim s.table_mux [
    | some _ ↦ s
    | none ↦ let (m, t) = mutex_create k s.trace in record s { trace = t; table_mux = m }
  ]

  -- The two guarded blocks of `task_manager_init`.
  unfoldable pub clear_table_block : System → System
  unfolding enter_table exit_table clear_table
  clear_table_block s = elim s.table_mux [
    | none ↦ s
    | some _ ↦ exit_table (record (enter_table s) { table = clear_table s.table; next_id = 1 })
  ]

  unfoldable pub clear_registry_block : System → System
  unfolding enter_registry exit_registry clear_registry free_chunks
  clear_registry_block s = elim s.registry_mux [
    | none ↦ s
    | some _ ↦
        let u = enter_registry s in
        exit_registry (record u {
          registry = clear_registry s.registry;
          trace = free_chunks s.registry.chunks u.trace;
        })
  ]

  unfoldable pub task_manager_init : System → System
  unfolding registry_init table_mux_init clear_table_block clear_registry_block
  task_manager_init s = clear_registry_block (clear_table_block (table_mux_init (registry_init s)))

  unfoldable pub ensure_initialized : System → System
  unfolding task_manager_init
  ensure_initialized s = elim s.table_mux [ some _ ↦ s | none ↦ task_manager_init s ]

  -- `runtime_registry_expand`, inside the registry lock.
  unfoldable pub registry_expand : System → Bool × System
  unfolding port_malloc add_chunk
  registry_expand s =
      let (p, t) = port_malloc k s.trace in
      elim p [
        | none ↦ (false, record s { trace = t })
        | some c ↦ (true, record s { trace = t; registry = add_chunk c s.registry })
      ]

  -- Takes the head of the free list and leaves the lock. The head is read only when it is known
  -- not to be NULL, so the case of none does not arise in `reserve_pair_runtime`.
  unfoldable pub pop_free : System → Option ℕ × System
  unfolding exit_registry take_slot
  pop_free s = elim s.registry.free_list [
    | none ↦ (none, exit_registry s)
    | some a ↦ (some a, exit_registry (record s { registry = take_slot a s.registry }))
  ]

  unfoldable pub expand_and_pop : System → Option ℕ × System
  unfolding registry_expand pop_free
  expand_and_pop s =
      let (grown, u) = registry_expand s in if grown then pop_free u else (none, exit_registry u)

  unfoldable pub reserve_pair_runtime : System → Option ℕ × System
  unfolding registry_init enter_registry expand_and_pop pop_free
  reserve_pair_runtime s0 =
      let s = enter_registry (registry_init s0) in
      elim s.registry.free_list [ none ↦ expand_and_pop s | some _ ↦ pop_free s ]

  -- `release_pair_runtime_impl`, and `edge_task_pair_runtime_release` which calls it.
  unfoldable pub pair_runtime_release : Option ℕ → System → System
  unfolding registry_init on_registry release_slot
  pair_runtime_release none s = s
  pair_runtime_release (some a) s = on_registry (release_slot a) (registry_init s)

  -- `runtime_mark_retired` and `runtime_mark_cleaning`
  unfoldable pub runtime_mark : Lifecycle → Option ℕ → System → System
  unfolding registry_init on_registry mark
  runtime_mark l none s = s
  runtime_mark l (some a) s = on_registry (mark l a) (registry_init s)

  -- `runtime_from_task_index`, which `edge_task_pair_runtime_by_task_index` returns.
  unfoldable pub runtime_by_task_index : ℤ → System → Option ℕ × System
  unfolding registry_init on_registry runtime_from_task_index
  runtime_by_task_index i s0 =
      let s = registry_init s0 in (runtime_from_task_index i s.registry, on_registry (λ r. r) s)
