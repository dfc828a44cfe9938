-- ===== src/TaskManager/Create/Progress.antt =====
-- When `_CreateTaskPinnedToCore_` succeeds, and what it does when another task takes its slot.
use edge_aware_tasks_rtos.Prelude.{
  ℕ, ◌+◌, ◌≤◌, ◌<◌, ◌≡◌, refl, ap, ◌∙◌, true, false, Option, none, some, is_some, Text, arith, inl,
  inr, Option-cases, ◌∷◌, pos, if_cases, sym, subst,
}
use edge_aware_tasks_rtos.Port.Kernel.{Trace, TaskRequest, task_deleted}
use edge_aware_tasks_rtos.Port.Rtos.{task_create_pinned_to_core, task_delete}
use edge_aware_tasks_rtos.TaskManager.Types.{FailureReason}
use edge_aware_tasks_rtos.TaskManager.Table.{
  Table, MonitorEntry, max_tasks, active_at, count_active, find_free_slot, record_monitor,
}
use edge_aware_tasks_rtos.TaskManager.Table.Count.{find_free_slot_sound, find_free_slot-none}
use edge_aware_tasks_rtos.TaskManager.Registry.{Registry}
use edge_aware_tasks_rtos.TaskManager.Unchanged.{ensure_initialized_ready}
use edge_aware_tasks_rtos.TaskManager.System.{Env, System, on_table}
use edge_aware_tasks_rtos.TaskManager.Create.{
  TaskArgs, peer_of, entry_of, populate_slot, started, start_task, create_task,
}

-- The kernel grants every request, no test hook interferes, and no other task changes the table
-- while a task is created.
pub record IsGenerous (e : Env) : Type 0 where
  pub malloc : (t : Trace) → (a : ℕ) × (e.kernel.malloc t ≡ some a)
  pub queue : (t : Trace) (len size : ℕ) → (q : ℕ) × (e.kernel.queue t len size ≡ some q)
  pub task : (t : Trace) (r : TaskRequest) → (h : ℕ) × (e.kernel.task t r ≡ some h)
  pub allows : (r : FailureReason) (name : Text) → e.hook r name ≡ false
  pub alone : (t : Trace) (table : Table) → e.others t table ≡ table

-- The table is initialised and has `n` entries left.
pub record HasRoom (n : ℕ) (s : System) : Type 0 where
  pub initialised : is_some s.table_mux ≡ true
  pub room : count_active s.table + n ≤ max_tasks

-- Entry `i` of `s`, which was free, is the task's in `u`, and nothing else of the two changed.
pub record IsCreated (a : TaskArgs) (i : ℕ) (s u : System) : Type 0 where
  pub within : i < max_tasks
  pub was_free : active_at s.table i ≡ false
  pub table : u.table ≡ record_monitor i (entry_of a i s) s.table
  pub registry : u.registry ≡ s.registry
  pub initialised : is_some u.table_mux ≡ is_some s.table_mux

all_active :
    (t : Table) → ((i : ℕ) → i < max_tasks → active_at t i ≡ true) → count_active t ≡ max_tasks
unfolding count_active
all_active t h =
    ground
      (arith, h 0, h 1, h 2, h 3, h 4, h 5, h 6, h 7, h 8, h 9, h 10, h 11, h 12, h 13, h 14, h 15)

pub room_found : (t : Table) → count_active t < max_tasks → (i : ℕ) × (find_free_slot t ≡ some i)
room_found t l = elim (Option-cases (find_free_slot t)) [
  | inl full ↦ absurd (omega (arith, l, all_active t (λ i m. find_free_slot-none t i full m)))
  | inr (i, found) ↦ (i, found)
]

-- The entry of a task, read off the registry alone.
abbrev entry_with : TaskArgs → ℕ → Registry → MonitorEntry
entry_with a i r = record {
  name = a.name;
  host = a.host;
  pair_id = (r.slot a.runtime).runtime.pair_id;
  task_index = pos i;
  peer_index = peer_of a.segment (r.slot a.runtime).runtime;
  exec_site = a.exec_site;
  core = a.core;
  deadline_ms = a.deadline_ms;
  delay_weight = a.delay_weight;
  energy_weight = a.energy_weight;
  period = a.period;
  wcet = a.wcet;
}

module _ (e : Env) where
  populate_slot-IsCreated :
      (a : TaskArgs) (i h : ℕ) (s : System)
      → i < max_tasks
      → active_at s.table i ≡ false
      → ((populate_slot e a i h s).0 ≡ some (i, h)) × IsCreated a i s (populate_slot e a i h s).1
  unfolding populate_slot on_table
  populate_slot-IsCreated a i h s l idle =
      if_cases (λ (r : Option (ℕ × ℕ) × System). (r.0 ≡ some (i, h)) × IsCreated a i s r.1)
        (active_at s.table i) (λ busy. ground (arith, busy, idle))
        (λ free. (
          refl,
          record { within = l; was_free = idle; table = refl; registry = refl; initialised = refl },
        ))

  -- Another task that took the slot in between keeps it: the table is left as that task made it, the
  -- creation fails, and the kernel task that was created for it is deleted.
  pub create_task_loses :
      (a : TaskArgs) (i h : ℕ) (s : System)
      → active_at s.table i ≡ true
      → ((populate_slot e a i h s).0 ≡ none)
        × ((populate_slot e a i h s).1.table ≡ s.table)
        × ((populate_slot e a i h s).1.registry ≡ s.registry)
        × ((rest : Trace) × ((populate_slot e a i h s).1.trace ≡ task_deleted (some h) ∷ rest))
  unfolding populate_slot on_table task_delete
  create_task_loses a i h s busy = rw busy (refl, refl, refl, (_, refl))

-- `_CreateTaskPinnedToCore_` after `ensure_initialized`.
unfoldable pub slot_or_none : Env → TaskArgs → System → Option (ℕ × ℕ) × System
unfolding find_free_slot on_table start_task
slot_or_none e a s =
    let u = on_table (λ t. t) s in
    elim (find_free_slot s.table) [ none ↦ (none, u) | some i ↦ start_task e a i u ]

module _ (e : Env) (open_handed : IsGenerous e) where
  -- The state after the kernel created the task, and the task's handle.
  started_lem :
      (a : TaskArgs) (s : System)
      → (h : ℕ) × ((started e a s).0 ≡ some h)
        × ((started e a s).1.table ≡ s.table)
        × ((started e a s).1.registry ≡ s.registry)
        × ((started e a s).1.table_mux ≡ s.table_mux)
  unfolding started task_create_pinned_to_core
  started_lem a s =
      let granted = open_handed.task s.trace _ in
      (granted.0, granted.1, open_handed.alone _ s.table, refl, refl)

  start_task-IsCreated :
      (a : TaskArgs) (i : ℕ) (s : System)
      → i < max_tasks
      → active_at s.table i ≡ false
      → (h : ℕ) × ((start_task e a i s).0 ≡ some (i, h)) × IsCreated a i s (start_task e a i s).1
  unfolding start_task
  start_task-IsCreated a i s l idle =
      let (h, got, table, registry, mux) = started_lem a s in
      let u = (started e a s).1 in
      let (made, c) = populate_slot-IsCreated e a i h u l (ap (λ t. active_at t i) table ∙ idle) in
      (
        h,
        rw (got, start_task) made,
        rw (got, start_task)
            (record {
              within = l;
              was_free = idle;
              table =
                  c.table
                  ∙ ap (λ r. record_monitor i (entry_with a i r) u.table) registry
                  ∙ ap (record_monitor i (entry_of a i s)) table;
              registry = c.registry ∙ registry;
              initialised = c.initialised ∙ ap is_some mux;
            }),
      )

  slot_started :
      (a : TaskArgs) (s : System)
      → count_active s.table < max_tasks
      → (i h : ℕ) × ((slot_or_none e a s).0 ≡ some (i, h)) × IsCreated a i s (slot_or_none e a s).1
  unfolding slot_or_none on_table
  slot_started a s l =
      let (i, found) = room_found s.table l in
      let (idle, within) = find_free_slot_sound s.table found in
      let (h, made, c) = start_task-IsCreated a i (on_table (λ t. t) s) within idle in
      (
        i,
        h,
        rw (found, slot_or_none) made,
        rw (found, slot_or_none)
            (record {
              within = within;
              was_free = idle;
              table = c.table;
              registry = c.registry;
              initialised = c.initialised;
            }),
      )

  -- A task is created as soon as the table is initialised and has an entry left: the creation
  -- returns the task's entry, which was free, records the task there and changes nothing else.
  pub create_task_succeeds :
      (a : TaskArgs) (n : ℕ) (s : System)
      → HasRoom (n + 1) s
      → (i h : ℕ) × ((create_task e a s).0 ≡ some (i, h)) × IsCreated a i s (create_task e a s).1
  unfolding create_task slot_or_none
  create_task_succeeds a n s v =
      subst
        (λ u.
          (i h : ℕ) × ((slot_or_none e a u).0 ≡ some (i, h))
          × IsCreated a i s (slot_or_none e a u).1)
        (sym (ensure_initialized_ready e.kernel s v.initialised))
        (slot_started a s (omega (arith, v.room)))
