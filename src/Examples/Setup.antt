-- ===== src/Examples/Setup.antt =====
-- How the example applications start the runtime and create their pair: the `run_*_example`
-- functions of src/examples and the `app_main` functions of components/EEAA/examples.
pub mod Outcome
use edge_aware_tasks_rtos.Prelude.{
  ℕ, ℤ, Bool, true, false, not, Option, none, some, codes, if◌then◌else◌, is_negative,
}
use edge_aware_tasks_rtos.Port.Rtos.{delay_milliseconds, task_delete}
use edge_aware_tasks_rtos.TaskManager.Types.{
  TaskSpec, FailureReason, failure_none, CreationResult, cleanup_pair,
}
use edge_aware_tasks_rtos.TaskManager.Access.{zero_snapshot, get_task_snapshot_by_index}
use edge_aware_tasks_rtos.TaskManager.Pair.{
  pair_queue_client_to_server, pair_queue_server_to_client,
}
use edge_aware_tasks_rtos.TaskManager.System.{Env, System, task_manager_init}
use edge_aware_tasks_rtos.TaskManager.CreatePair.{create_from_spec_ex, create_from_spec}
use edge_aware_tasks_rtos.TaskManager.Destroy.{pair_destroy_by_task_index}
use edge_aware_tasks_rtos.Offloader.Types.{mode_per_task}
use edge_aware_tasks_rtos.Facade.{
  App, RuntimeConfig, default_config, runtime_start, runtime_start_local_first, runtime_run_once,
  runtime_stop,
}
use edge_aware_tasks_rtos.Facade.Status.{runtime_status}

-- How a set-up ends.
pub data SetUp : Type 0 where
  start_failed : SetUp
  creation_refused : FailureReason → SetUp
  set_up : ℤ → SetUp

abbrev pub is_none_reason : FailureReason → Bool
is_none_reason failure_none = true
is_none_reason _ = false

abbrev pub with_system : App → System → App
with_system a s = record a { world = record (a.world) { system = s } }

-- The configuration that the advanced example writes out, over `edge_runtime_config_init`.
unfoldable pub advanced_config : RuntimeConfig
unfolding default_config
advanced_config = record default_config {
  offloader = record (default_config.offloader) {
    enabled = true;
    mode = mode_per_task;
    control_period_ms = 100;
    local_host_label = some (codes "LOCAL_RUNTIME");
    remote_host_label = some (codes "REMOTE_RUNTIME");
  };
}

module _ (e : Env) where
  unfoldable pub create_in : Option TaskSpec → App → CreationResult × App
  unfolding create_from_spec_ex
  create_in spec a = let (r, s) = create_from_spec_ex e spec a.world.system in (r, with_system a s)

  -- Start, creation, and the stop after a creation that failed.
  unfoldable pub set_up_with : (App → Bool × App) → Option TaskSpec → App → SetUp × App
  unfolding create_in runtime_stop
  set_up_with start spec a =
      let (started, b) = start a in
      if not started
      then (start_failed, b)
      else let (r, c) = create_in spec b in
        if is_none_reason r.failure_reason
        then (set_up r.task_index, c)
        else (creation_refused r.failure_reason, (runtime_stop c).1)

  -- The first part of `run_happy_path_example`, of `run_hello_world_example`, and of the facade
  -- example's `app_main`.
  unfoldable pub set_up_local_first : Option TaskSpec → App → SetUp × App
  unfolding set_up_with runtime_start_local_first
  set_up_local_first = set_up_with (
      runtime_start_local_first e.kernel (some (codes "LOCAL_RUNTIME"))
        (some (codes "REMOTE_RUNTIME")))

  -- The first part of `run_advanced_api_example`.
  unfoldable pub set_up_advanced : Option TaskSpec → App → SetUp × App
  unfolding set_up_with runtime_start advanced_config
  set_up_advanced = set_up_with (runtime_start e.kernel (some advanced_config))

  -- `log_happy_snapshot` and its like.
  unfoldable pub log_snapshot : ℤ → App → App
  unfolding get_task_snapshot_by_index
  log_snapshot i a =
      if is_negative i
      then a
      else with_system a
          (get_task_snapshot_by_index e.kernel i (some zero_snapshot) a.world.system).2

  -- What follows a successful set-up, up to the loop.
  unfoldable pub report : ℤ → App → App
  unfolding runtime_status log_snapshot
  report i a = log_snapshot i (runtime_status e.kernel a).1

  delay_in : ℕ → App → App
  unfolding delay_milliseconds
  delay_in ms a =
      let s = a.world.system in
      with_system a (record s { trace = delay_milliseconds e.kernel ms s.trace })

  -- One round of the loop of the happy path and of the advanced example.
  unfoldable pub heartbeat : App → App
  unfolding delay_in runtime_status runtime_run_once
  heartbeat a = (runtime_run_once e.kernel (runtime_status e.kernel (delay_in 5000 a)).1).1

  -- One round of the loop of the hello-world example, which leaves the routes alone.
  unfoldable pub hello_heartbeat : App → App
  unfolding delay_in runtime_status
  hello_heartbeat a = (runtime_status e.kernel (delay_in 5000 a)).1

  finish_facade : SetUp → App → App
  unfolding runtime_status runtime_run_once runtime_stop pair_destroy_by_task_index
  finish_facade (set_up i) a =
      let b = (runtime_run_once e.kernel (runtime_status e.kernel a).1).1 in
      let s = (pair_destroy_by_task_index e.kernel i cleanup_pair b.world.system).1 in
      (runtime_stop (with_system b s)).1
  finish_facade _ a = a

  -- `app_main` of the facade example.
  unfoldable pub facade_main : Option TaskSpec → App → App
  unfolding set_up_local_first finish_facade
  facade_main spec a = let (r, b) = set_up_local_first spec a in finish_facade r b

  -- `app_main` of the task creation example, up to its loop: the exit code and the system.
  unfoldable pub task_creation_main : Option TaskSpec → System → ℤ × System
  unfolding task_manager_init create_from_spec
  task_creation_main spec s = create_from_spec e spec (task_manager_init e.kernel s)

  queues_or_delete : Option ℕ → Option ℕ → System → Option (ℕ × ℕ) × System
  unfolding task_delete
  queues_or_delete (some out) (some inbox) s = (some (out, inbox), s)
  queues_or_delete _ _ s = (none, record s { trace = task_delete none s.trace })

  -- The entry of a client task: the queue it sends to and the one it receives from, or its end.
  unfoldable pub client_entry : Option ℕ → System → Option (ℕ × ℕ) × System
  unfolding queues_or_delete pair_queue_client_to_server pair_queue_server_to_client
  client_entry runtime s =
      queues_or_delete (pair_queue_client_to_server runtime s)
        (pair_queue_server_to_client runtime s) s

  -- The entry of a server task, in the same order.
  unfoldable pub server_entry : Option ℕ → System → Option (ℕ × ℕ) × System
  unfolding queues_or_delete pair_queue_client_to_server pair_queue_server_to_client
  server_entry runtime s =
      queues_or_delete (pair_queue_server_to_client runtime s)
        (pair_queue_client_to_server runtime s) s
