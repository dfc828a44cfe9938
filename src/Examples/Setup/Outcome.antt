-- ===== src/Examples/Setup/Outcome.antt =====
-- How the set-up of an example application ends where the kernel answers every request.
use edge_aware_tasks_rtos.Prelude.{
  ℕ, ◌≡◌, refl, ◌∙◌, ap, pos, Bool, true, false, Option, none, some, Text, codes, is_some, arith,
  inl, inr, Option-cases,
}
use edge_aware_tasks_rtos.Port.Kernel.{Kernel, Trace}
use edge_aware_tasks_rtos.Port.Rtos.{mutex_create}
use edge_aware_tasks_rtos.TaskManager.Types.{TaskSpec}
use edge_aware_tasks_rtos.TaskManager.Table.{
  Table, clip, clear_table, count_active, monitor_index_valid,
}
use edge_aware_tasks_rtos.TaskManager.System.{
  Env, System, registry_init, table_mux_init, clear_table_block, clear_registry_block,
  task_manager_init, enter_table, exit_table, enter_registry, exit_registry,
}
use edge_aware_tasks_rtos.TaskManager.Access.{is_client_task}
use edge_aware_tasks_rtos.TaskManager.Spec.{spec_validate}
use edge_aware_tasks_rtos.TaskManager.Create.{base_name}
use edge_aware_tasks_rtos.TaskManager.PairArgs.{Checked, check_args}
use edge_aware_tasks_rtos.TaskManager.CreatePair.{args_of_spec, create_from_spec_ex}
use edge_aware_tasks_rtos.TaskManager.Create.Progress.{IsGenerous, HasRoom}
use edge_aware_tasks_rtos.TaskManager.CreatePair.Room.{client_base_name}
use edge_aware_tasks_rtos.TaskManager.CreatePair.Success.{create_pair_ex_succeeds}
use edge_aware_tasks_rtos.Facade.{
  App, RuntimeConfig, default_config, resolved_config, config_is_valid, runtime_start,
  runtime_start_local_first,
}
use edge_aware_tasks_rtos.Examples.Specs.{happy_task_spec, advanced_task_spec}
use edge_aware_tasks_rtos.Examples.Setup.{
  set_up, create_in, set_up_with, set_up_local_first, set_up_advanced, advanced_config,
}

cleared_count : (t : Table) → count_active (clear_table t) ≡ 0
unfolding count_active clear_table
cleared_count t = refl

-- A kernel that has a mutex whenever one is asked for.
abbrev pub GivesMutexes : Kernel → Type 0
GivesMutexes k = (t : Trace) → (m : ℕ) × (k.mutex t ≡ some m)

module _ (k : Kernel) (mutexes : GivesMutexes k) where
  table_mux_init_lem : (s : System) → (m : ℕ) × ((table_mux_init k s).table_mux ≡ some m)
  unfolding table_mux_init mutex_create
  table_mux_init_lem s = elim (Option-cases s.table_mux) [
    | inr (m, e) ↦ (m, rw (e, table_mux_init) e)
    | inl e ↦ let (m, f) = mutexes s.trace in (m, rw (e, table_mux_init) f)
  ]

  clear_table_block_lem :
      (m : ℕ) (s : System)
      → s.table_mux ≡ some m
      → ((clear_table_block k s).table ≡ clear_table s.table)
        × ((clear_table_block k s).table_mux ≡ some m)
  unfolding clear_table_block enter_table exit_table
  clear_table_block_lem m s e = rw (e, clear_table_block) (refl, e)

  clear_registry_block_lem :
      (s : System)
      → ((clear_registry_block k s).table ≡ s.table)
        × ((clear_registry_block k s).table_mux ≡ s.table_mux)
  unfolding clear_registry_block enter_registry exit_registry
  clear_registry_block_lem s = elim (Option-cases s.registry_mux) [
    | inl e ↦ rw (e, clear_registry_block) (refl, refl)
    | inr (m, e) ↦ rw (e, clear_registry_block) (refl, refl)
  ]

  task_manager_init-HasRoom : (s : System) → HasRoom 2 (task_manager_init k s)
  unfolding task_manager_init
  task_manager_init-HasRoom s =
      let u = table_mux_init k (registry_init k s) in
      let (m, e) = table_mux_init_lem (registry_init k s) in
      let (cleared, kept) = clear_table_block_lem m u e in
      let (table, mux) = clear_registry_block_lem (clear_table_block k u) in
      record {
        initialised = ap is_some (mux ∙ kept);
        room = omega (arith, ap count_active (table ∙ cleared) ∙ cleared_count u.table);
      }

  runtime_start-HasRoom :
      (c : Option RuntimeConfig) (a : App)
      → a.running ≡ false
      → config_is_valid (resolved_config c) ≡ true
      → ((runtime_start k c a).0 ≡ true)
        × ((runtime_start k c a).1.running ≡ true)
        × HasRoom 2 (runtime_start k c a).1.world.system
  unfolding runtime_start
  runtime_start-HasRoom c a off good =
      rw (off, runtime_start) (rw good (refl, refl, task_manager_init-HasRoom a.world.system))

-- The application runs with the pair's client in entry `i` of the table under this name.
pub record IsSetUp (name : Text) (i : ℕ) (a : App) : Type 0 where
  pub running : a.running ≡ true
  pub valid : monitor_index_valid (pos i) a.world.system.table ≡ true
  pub named : (a.world.system.table.cold i).name ≡ name

-- The configuration that `edge_runtime_start_local_first` starts with for the examples' labels.
abbrev local_first_config : RuntimeConfig
unfolding default_config
local_first_config = record default_config {
  offloader = record (default_config.offloader) {
    local_host_label = some (codes "LOCAL_RUNTIME");
    remote_host_label = some (codes "REMOTE_RUNTIME");
  };
}

abbrev spec_or : TaskSpec → Option TaskSpec → TaskSpec
spec_or d none = d
spec_or d (some p) = p

module _ (e : Env) (open_handed : IsGenerous e) where
  set_up_with_succeeds :
      (start : App → Bool × App) (p : TaskSpec) (c : Checked) (a : App)
      → spec_validate (some p) ≡ true
      → check_args (args_of_spec e p) ≡ some c
      → (start a).0 ≡ true
      → (start a).1.running ≡ true
      → HasRoom 2 (start a).1.world.system
      → (i : ℕ) × ((set_up_with e start (some p) a).0 ≡ set_up (pos i))
        × IsSetUp (clip (client_base_name c)) i (set_up_with e start (some p) a).1
  unfolding set_up_with create_in create_from_spec_ex
  set_up_with_succeeds start p c a good args started running room =
      let (i, result, valid, named, time) =
        create_pair_ex_succeeds e open_handed (args_of_spec e p) c (start a).1.world.system args
          room in
      (
        i,
        rw (started, set_up_with) (rw good (rw result refl)),
        rw (started, set_up_with)
            (rw good (rw result (record { running = running; valid = valid; named = named }))),
      )

  started_with_succeeds :
      (config : Option RuntimeConfig) (p : TaskSpec) (c : Checked) (a : App)
      → GivesMutexes e.kernel
      → a.running ≡ false
      → config_is_valid (resolved_config config) ≡ true
      → spec_validate (some p) ≡ true
      → check_args (args_of_spec e p) ≡ some c
      → (i : ℕ) × ((set_up_with e (runtime_start e.kernel config) (some p) a).0 ≡ set_up (pos i))
        × IsSetUp
            (clip (client_base_name c))
            i
            (set_up_with e (runtime_start e.kernel config) (some p) a).1
  started_with_succeeds config p c a mutexes off valid good args =
      let (started, running, room) = runtime_start-HasRoom e.kernel mutexes config a off valid in
      set_up_with_succeeds (runtime_start e.kernel config) p c a good args started running room

  -- The arguments of a pair as they are after the NULL tests.
  abbrev checked_spec : (name : Text) (client server : ℕ) → TaskSpec → Checked
  checked_spec name client server p = record {
    args = args_of_spec e p;
    name = name;
    client_fn = client;
    server_fn = server;
    spec = p.pair_spec;
  }

  -- Where the kernel also grants every mutex, the set-up of the happy path example from an
  -- application that does not run ends with its pair created: the application runs, the task index
  -- is valid, and its entry is named HappyTask-cl-0.
  pub happy_path_set_up :
      (client server : ℕ) (old : TaskSpec) (a : App)
      → GivesMutexes e.kernel
      → a.running ≡ false
      → (i : ℕ) × ((set_up_local_first e (happy_task_spec client server old) a).0 ≡ set_up (pos i))
        × IsSetUp
            (codes "HappyTask-cl-0")
            i
            (set_up_local_first e (happy_task_spec client server old) a).1
  unfolding set_up_local_first happy_task_spec runtime_start_local_first config_is_valid
      resolved_config spec_validate check_args default_config base_name
  happy_path_set_up client server old a mutexes off =
      let p = spec_or old (happy_task_spec client server old) in
      let c = checked_spec (codes "HappyTask") client server p in
      started_with_succeeds (some local_first_config) p c a mutexes off refl refl refl

  -- Where the kernel also grants every mutex, the set-up of the advanced example from an
  -- application that does not run ends with its pair created and the application running, but the
  -- name of the client's entry is AdvancedTask-cl, which is not recognised as a client's.
  pub advanced_set_up :
      (client server : ℕ) (old : TaskSpec) (a : App)
      → GivesMutexes e.kernel
      → a.running ≡ false
      → (i : ℕ) × ((set_up_advanced e (advanced_task_spec client server old) a).0 ≡ set_up (pos i))
        × IsSetUp
            (codes "AdvancedTask-cl")
            i
            (set_up_advanced e (advanced_task_spec client server old) a).1
        × (is_client_task (some (codes "AdvancedTask-cl")) ≡ false)
  unfolding set_up_advanced advanced_task_spec advanced_config config_is_valid resolved_config
      spec_validate check_args default_config base_name is_client_task
  advanced_set_up client server old a mutexes off =
      let p = spec_or old (advanced_task_spec client server old) in
      let c = checked_spec (codes "AdvancedTask") client server p in
      let (i, done, now) =
        started_with_succeeds (some advanced_config) p c a mutexes off refl refl refl in
      (i, done, now, refl)
