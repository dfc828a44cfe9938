-- ===== src/Witnesses/Runs.antt =====
-- The theorems on the facade and on pair creation at concrete inputs.
use edge_aware_tasks_rtos.Prelude.{
  ◌≡◌, ◌≤◌, ◌≢◌, pos, true, false, ◌||◌, none, codes, arith, if◌then◌else◌, minus_one,
}
use edge_aware_tasks_rtos.Samples.{sample_kernel, sample_env, sample_args, sample_env-IsLawful}
use edge_aware_tasks_rtos.TaskManager.Types.{failure_none, failure_queue_client, cleanup_pair}
use edge_aware_tasks_rtos.TaskManager.Table.{max_tasks, monitor_index_valid}
use edge_aware_tasks_rtos.TaskManager.System.{System, Env, boot, task_manager_init}
use edge_aware_tasks_rtos.TaskManager.Create.{runtime_at}
use edge_aware_tasks_rtos.TaskManager.PairArgs.{Checked}
use edge_aware_tasks_rtos.TaskManager.CreatePair.{create_pair_ex, error_cleanup, finish_pair}
use edge_aware_tasks_rtos.TaskManager.CreatePair.Cleanup.{
  is_reserved, error_cleanup_releases, finish_pair_releases,
}
use edge_aware_tasks_rtos.TaskManager.Destroy.{pair_destroy_by_task_index}
use edge_aware_tasks_rtos.TaskManager.Invariant.{Inv}
use edge_aware_tasks_rtos.TaskManager.Invariant.Steps.{
  none_yet, one_more, initialised, created_pair, destroyed_at, reachable-Inv,
}
use edge_aware_tasks_rtos.Facade.{
  App, boot_app, runtime_start, runtime_run_once, runtime_stop, runtime_state, ready, stopped,
  config_is_valid, resolved_config,
}
use edge_aware_tasks_rtos.Facade.Control.{runtime_start_result, runtime_stop_state}
use edge_aware_tasks_rtos.Facade.Lifecycle.{
  IsSound, no_step, one_step, started, ran_once, halted, reachable-IsSound,
}

-- The runtime started with its defaults, run once, and stopped.
abbrev started_app : App
started_app = (runtime_start sample_kernel none boot_app).1

abbrev run_app : App
run_app = (runtime_run_once sample_kernel started_app).1

reachable-IsSound_example : IsSound (runtime_stop run_app).1
reachable-IsSound_example = reachable-IsSound sample_env sample_env-IsLawful (
    one_step (one_step (one_step no_step (started none boot_app)) (ran_once started_app))
      (halted run_app))

-- The task manager initialised, a pair created and destroyed again.
abbrev ready_system : System
ready_system = task_manager_init sample_kernel boot

abbrev paired_system : System
paired_system = (create_pair_ex sample_env sample_args ready_system).1

abbrev torn_system : System
torn_system = (pair_destroy_by_task_index sample_kernel (pos 0) cleanup_pair paired_system).1

reachable-Inv_example : Inv torn_system × (torn_system.table.num_monitored_tasks ≤ max_tasks)
reachable-Inv_example = reachable-Inv sample_env sample_env-IsLawful (
    one_more
      (one_more (one_more none_yet (initialised boot)) (created_pair sample_args ready_system))
      (destroyed_at (pos 0) cleanup_pair paired_system))

runtime_start_result_example :
    ((runtime_start sample_kernel none boot_app).0 ≡ started_app.running)
    × ((runtime_start sample_kernel none boot_app).0
        ≡ (false || config_is_valid (resolved_config none)))
    × ((if (runtime_start sample_kernel none boot_app).0 then boot_app else started_app) ≡ boot_app)
runtime_start_result_example = runtime_start_result sample_kernel none boot_app

runtime_stop_state_example :
    ((runtime_stop started_app).0 ≡ true)
    × (runtime_stop (runtime_stop started_app).1 ≡ runtime_stop started_app)
    × ((runtime_stop started_app).1.world.system ≡ started_app.world.system)
    × (runtime_state (runtime_stop started_app).1
        ≡ (if started_app.configured then ready else stopped))
    × (runtime_run_once sample_kernel (runtime_stop started_app).1
        ≡ (false, (runtime_stop started_app).1))
runtime_stop_state_example = runtime_stop_state sample_kernel started_app

-- The arguments of `sample_args`, checked, under a hook that makes every creation fail.
abbrev pub checked_args : Checked
checked_args = record {
  args = sample_args;
  name = codes "cam";
  client_fn = 1;
  server_fn = 2;
  spec = record { queue_depth = 1; message_size = 4 };
}

abbrev failing_env : Env
failing_env = record sample_env { hook = λ reason name. true }

queue_is_no_success : failure_queue_client ≢ failure_none
queue_is_no_success h = ground (arith, h)

finish_pair_releases_example :
    ((finish_pair failing_env checked_args 4 boot).0.task_index ≡ minus_one)
    × (is_reserved (finish_pair failing_env checked_args 4 boot).1.registry 4 ≡ false)
unfolding finish_pair
finish_pair_releases_example =
    finish_pair_releases failing_env checked_args 4 boot queue_is_no_success

error_cleanup_releases_example :
    (is_reserved (error_cleanup sample_env checked_args 4 boot).registry 4 ≡ false)
    × (monitor_index_valid
          (runtime_at boot 4).client_index
          (error_cleanup sample_env checked_args 4 boot).table
        ≡ false)
    × (monitor_index_valid
          (runtime_at boot 4).server_index
          (error_cleanup sample_env checked_args 4 boot).table
        ≡ false)
error_cleanup_releases_example = error_cleanup_releases sample_env checked_args 4 boot
