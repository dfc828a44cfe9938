-- ===== src/Witnesses/Creation.antt =====
-- The theorems on creation, destruction and routing of one task at concrete inputs.
use edge_aware_tasks_rtos.Prelude.{
  ℕ, ◌+◌, ◌*◌, ◌≡◌, refl, pos, true, false, some, codes, arith, ltb, leb, length, u32,
  if◌then◌else◌, none,
}
use edge_aware_tasks_rtos.Samples.{
  sample_kernel, sample_env, sample_env-IsGenerous, sample_args, sample_entry,
}
use edge_aware_tasks_rtos.TaskManager.Types.{
  failure_none, cleanup_pair, cleanup_client_only, local_execution, remote_execution,
}
use edge_aware_tasks_rtos.TaskManager.Table.{
  zero_table, clip, count_active, monitor_index_valid, record_monitor,
}
use edge_aware_tasks_rtos.TaskManager.Access.{change_hot, set_metrics, is_client_task}
use edge_aware_tasks_rtos.TaskManager.Registry.{
  add_chunk, take_slot, slot_owned, runtime_from_task_index,
}
use edge_aware_tasks_rtos.TaskManager.System.{System, boot}
use edge_aware_tasks_rtos.TaskManager.Unchanged.{Same}
use edge_aware_tasks_rtos.TaskManager.PairArgs.{check_args}
use edge_aware_tasks_rtos.TaskManager.Create.{base_name}
use edge_aware_tasks_rtos.TaskManager.Create.Names.{base_name-is_client_task_iff}
use edge_aware_tasks_rtos.TaskManager.Create.Progress.{HasRoom}
use edge_aware_tasks_rtos.TaskManager.CreatePair.{create_pair_ex}
use edge_aware_tasks_rtos.TaskManager.CreatePair.Room.{client_base_name}
use edge_aware_tasks_rtos.TaskManager.CreatePair.Success.{create_pair_ex_succeeds}
use edge_aware_tasks_rtos.TaskManager.CreatePair.Cleanup.{is_reserved}
use edge_aware_tasks_rtos.TaskManager.Destroy.{pair_destroy}
use edge_aware_tasks_rtos.TaskManager.Destroy.Released.{pair_destroy_releases}
use edge_aware_tasks_rtos.Offloader.State.{World, offloader_init, state_ready, config_ready}
use edge_aware_tasks_rtos.Offloader.Policy.{policy_default_for_scheduler, policy_fp}
use edge_aware_tasks_rtos.Offloader.Run.{run_for_task_index}
use edge_aware_tasks_rtos.Offloader.Routing.{run_for_task_index_fp}
use edge_aware_tasks_rtos.Offloader.Routing.Rejected.{run_for_task_index_zero_wcet}
use edge_aware_tasks_rtos.Offloader.Invariant.Applied.{site_at}
use edge_aware_tasks_rtos.Facade.{default_config}
use edge_aware_tasks_rtos.Witnesses.Data.{one_entry, one_taken}
use edge_aware_tasks_rtos.Witnesses.Runs.{checked_args}

base_name-is_client_task_iff_example :
    is_client_task (some (base_name (codes "-cl-") (codes "AdvancedTask") 0))
    ≡ leb (length (codes "AdvancedTask")) 11
base_name-is_client_task_iff_example = base_name-is_client_task_iff (codes "AdvancedTask") 0 refl

-- After the start, with an empty table.
abbrev pub started_system : System
started_system = record boot { table_mux = some 1; registry_mux = some 2 }

pub started_system-HasRoom : HasRoom 2 started_system
unfolding count_active
started_system-HasRoom = record { initialised = refl; room = omega arith }

create_pair_ex_succeeds_example :
    (i : ℕ) × ((create_pair_ex sample_env sample_args started_system).0
      ≡ record { task_index = pos i; failure_reason = failure_none })
    × (monitor_index_valid (pos i) (create_pair_ex sample_env sample_args started_system).1.table
        ≡ true)
    × (((create_pair_ex sample_env sample_args started_system).1.table.cold i).name
        ≡ clip (client_base_name checked_args))
    × (((create_pair_ex sample_env sample_args started_system).1.table.cold i).wcet
        ≡ checked_args.client_wcet)
unfolding check_args
create_pair_ex_succeeds_example =
    create_pair_ex_succeeds sample_env sample_env-IsGenerous sample_args checked_args started_system
      refl started_system-HasRoom

-- A client at index 0 with its runtime at 23.
abbrev one_client : System
one_client = record started_system { table = one_entry; registry = one_taken }

pair_destroy_releases_example :
    (is_reserved (pair_destroy sample_kernel (some 23) cleanup_pair one_client).1.registry 23
      ≡ false)
    × (monitor_index_valid
          (one_client.registry.slot 23).runtime.client_index
          (pair_destroy sample_kernel (some 23) cleanup_pair one_client).1.table
        ≡ false)
    × (monitor_index_valid
          (one_client.registry.slot 23).runtime.server_index
          (pair_destroy sample_kernel (some 23) cleanup_pair one_client).1.table
        ≡ false)
    × Same
        (pair_destroy sample_kernel
          (some 23)
          cleanup_client_only
          (pair_destroy sample_kernel (some 23) cleanup_pair one_client).1).1
        (pair_destroy sample_kernel (some 23) cleanup_pair one_client).1
unfolding slot_owned add_chunk take_slot
pair_destroy_releases_example =
    pair_destroy_releases sample_kernel 23 cleanup_client_only one_client refl refl

-- The client after a response time of 20 against an execution time of 10.
abbrev pub slow_client : World
slow_client = record {
  system = record one_client { table = change_hot (set_metrics 20 0 0 0 0) (pos 0) one_entry };
  offloader = offloader_init (some default_config.offloader) none;
}

run_for_task_index_fp_example :
    ((run_for_task_index sample_kernel (pos 0) slow_client).0 ≡ true)
    × (site_at (pos 0) (run_for_task_index sample_kernel (pos 0) slow_client).1.system.table
        ≡ some (if ltb (4 * 20 + 3) (5 * 10) then local_execution else remote_execution))
unfolding state_ready config_ready offloader_init policy_default_for_scheduler policy_fp
    default_config change_hot monitor_index_valid record_monitor is_client_task
    runtime_from_task_index add_chunk take_slot
run_for_task_index_fp_example =
    run_for_task_index_fp sample_kernel 0 23 slow_client refl refl refl refl refl refl
      (λ h. absurd (omega (arith, h))) (omega arith)

-- A client without an execution time, as in the happy path example.
abbrev idle_client : World
idle_client = record slow_client {
  system = record one_client {
    table = record_monitor 0 (record sample_entry { wcet = 0 }) zero_table;
  };
}

run_for_task_index_zero_wcet_example :
    ((run_for_task_index sample_kernel (pos 0) idle_client).0 ≡ false)
    × Same (run_for_task_index sample_kernel (pos 0) idle_client).1.system idle_client.system
    × ((run_for_task_index sample_kernel (pos 0) idle_client).1.offloader.observed.failure_events
        ≡ u32 (idle_client.offloader.observed.failure_events + 1))
unfolding state_ready config_ready offloader_init policy_default_for_scheduler policy_fp
    default_config monitor_index_valid record_monitor is_client_task runtime_from_task_index
    add_chunk take_slot
run_for_task_index_zero_wcet_example =
    run_for_task_index_zero_wcet sample_kernel 0 23 idle_client refl refl refl refl refl refl refl
