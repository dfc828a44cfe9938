-- ===== src/Witnesses/Cycles.antt =====
-- The theorems on collection, status and whole routing cycles at concrete inputs.
use edge_aware_tasks_rtos.Prelude.{
  [], ℕ, ◌≡◌, ◌≤◌, refl, sym, ap, ◌∙◌, pos, true, not, ◌&&◌, some, is_some, arith, length, get_or,
  ltb, ◌==◌, if◌then◌else◌,
}
use edge_aware_tasks_rtos.Samples.{sample_kernel, sample_env, sample_env-IsGenerous, sample_args}
use edge_aware_tasks_rtos.TaskManager.Types.{failure_none}
use edge_aware_tasks_rtos.TaskManager.Table.{
  max_tasks, count_active, monitor_index_valid, record_monitor,
}
use edge_aware_tasks_rtos.TaskManager.Access.{change_hot, update_task_oe2el_by_index}
use edge_aware_tasks_rtos.TaskManager.Registry.{slot_owned, slot_matches, runtime_from_task_index}
use edge_aware_tasks_rtos.TaskManager.Registry.FreeList.{empty_registry-IsFreeList}
use edge_aware_tasks_rtos.TaskManager.Unchanged.{Same}
use edge_aware_tasks_rtos.TaskManager.Create.{runtime_at}
use edge_aware_tasks_rtos.TaskManager.PairArgs.{check_args}
use edge_aware_tasks_rtos.TaskManager.CreatePair.{create_pair_ex, is_local}
use edge_aware_tasks_rtos.TaskManager.CreatePair.Answers.Created.{create_pair_ex_answers}
use edge_aware_tasks_rtos.Offloader.State.{World, offloader_init, state_ready, config_ready}
use edge_aware_tasks_rtos.Offloader.Policy.{policy_default_for_scheduler, policy_fp, policy_rm}
use edge_aware_tasks_rtos.Offloader.Cycle.{collect_candidates}
use edge_aware_tasks_rtos.Offloader.Run.{
  zero_candidate, candidates_or, run_once, run_for_task_index,
}
use edge_aware_tasks_rtos.Offloader.Collection.{eligible, eligible_from}
use edge_aware_tasks_rtos.Offloader.Collection.Filled.{collect_candidates-eligible}
use edge_aware_tasks_rtos.Offloader.Invariant.Applied.{site_at}
use edge_aware_tasks_rtos.Offloader.Routing.{chosen_site}
use edge_aware_tasks_rtos.Offloader.Routing.Created.{created_pair_routes}
use edge_aware_tasks_rtos.Offloader.Routing.EachTask.{eligible_lem}
use edge_aware_tasks_rtos.Offloader.Routing.Fixed.{IsTimed, run_once_routes}
use edge_aware_tasks_rtos.Offloader.Routing.Monotonic.{
  IsPeriodic, site_by_period, run_once_routes_rm,
}
use edge_aware_tasks_rtos.Facade.{App, boot_app, default_config}
use edge_aware_tasks_rtos.Facade.Status.{active_config, runtime_status}
use edge_aware_tasks_rtos.Facade.Status.Reported.{runtime_status_reports}
use edge_aware_tasks_rtos.Witnesses.Runs.{checked_args}
use edge_aware_tasks_rtos.Witnesses.Creation.{slow_client, started_system, started_system-HasRoom}

-- The only entry of the slow client's table is entry 0.
slow_client-IsTimed : IsTimed slow_client.system.table slow_client.system.registry
unfolding monitor_index_valid change_hot record_monitor
slow_client-IsTimed i c e =
    let (a, valid, found, whole) =
      eligible_lem i slow_client.system.table slow_client.system.registry c e in
    let first : i ≡ 0 = ground (arith, valid) in
    let time : c.snapshot.wcet ≡ 10 =
      ap (λ d. d.snapshot.wcet) (sym whole)
      ∙ ap (λ j. (slow_client.system.table.cold j).wcet) first in
    (λ z. absurd (omega (arith, time, z)), omega (arith, time))

run_once_routes_example :
    ((run_once sample_kernel slow_client).0
      ≡ not (
          length (eligible_from max_tasks 0 slow_client.system.table slow_client.system.registry)
          == 0))
    × (((run_once sample_kernel slow_client).1.system.table.cold 0).exec_site ≡ (
        if is_some (eligible 0 slow_client.system.table slow_client.system.registry)
        then chosen_site
            (slow_client.system.table.cold 0).wcet
            (slow_client.system.table.hot 0).oe2el
        else (slow_client.system.table.cold 0).exec_site))
    × ((run_once sample_kernel slow_client).1.system.table.hot ≡ slow_client.system.table.hot)
unfolding state_ready config_ready offloader_init policy_default_for_scheduler policy_fp
    default_config
run_once_routes_example =
    run_once_routes sample_kernel slow_client 0 refl refl refl refl slow_client-IsTimed
      (omega arith)

-- The slow client under the rate-monotonic policy.
abbrev monotonic_client : World
monotonic_client = record slow_client {
  offloader = record (slow_client.offloader) { policy = policy_rm };
}

monotonic_client-IsPeriodic :
    IsPeriodic monotonic_client.system.table monotonic_client.system.registry
unfolding monitor_index_valid change_hot record_monitor
monotonic_client-IsPeriodic i c e =
    let (a, valid, found, whole) =
      eligible_lem i monotonic_client.system.table monotonic_client.system.registry c e in
    let first : i ≡ 0 = ground (arith, valid) in
    let time : c.snapshot.period ≡ 100 =
      ap (λ d. d.snapshot.period) (sym whole)
      ∙ ap (λ j. (monotonic_client.system.table.cold j).period) first in
    λ z. absurd (omega (arith, time, z))

run_once_routes_rm_example :
    ((run_once sample_kernel monotonic_client).0
      ≡ not (
          length (
            eligible_from max_tasks 0 monotonic_client.system.table
              monotonic_client.system.registry)
          == 0))
    × (((run_once sample_kernel monotonic_client).1.system.table.cold 0).exec_site ≡ (
        if is_some (eligible 0 monotonic_client.system.table monotonic_client.system.registry)
        then site_by_period
            (monotonic_client.system.table.cold 0).period
            (monotonic_client.system.table.hot 0).oe2el
        else (monotonic_client.system.table.cold 0).exec_site))
    × ((run_once sample_kernel monotonic_client).1.system.table.hot
        ≡ monotonic_client.system.table.hot)
unfolding state_ready config_ready offloader_init policy_default_for_scheduler policy_fp policy_rm
    default_config
run_once_routes_rm_example =
    run_once_routes_rm sample_kernel monotonic_client 0 refl refl refl refl
      monotonic_client-IsPeriodic (omega arith)

collect_candidates-eligible_example :
    ((collect_candidates sample_kernel (some (λ _. zero_candidate)) 4 slow_client.system).0
      ≡ length (eligible_from max_tasks 0 slow_client.system.table slow_client.system.registry))
    × (candidates_or
          (λ _. zero_candidate)
          (collect_candidates sample_kernel (some (λ _. zero_candidate)) 4 slow_client.system).1
          0
        ≡ (if ltb 0 4
            then get_or
                (eligible_from max_tasks 0 slow_client.system.table slow_client.system.registry)
                0
                zero_candidate
            else zero_candidate))
    × Same
        (collect_candidates sample_kernel (some (λ _. zero_candidate)) 4 slow_client.system).2
        slow_client.system
collect_candidates-eligible_example =
    collect_candidates-eligible sample_kernel (λ _. zero_candidate) 4 0 slow_client.system refl

-- An application that runs with the slow client.
abbrev slow_app : App
slow_app = record boot_app {
  world = slow_client;
  configured = true;
  running = true;
  config = default_config;
}

runtime_status_reports_example :
    ((runtime_status sample_kernel slow_app).0.monitored_tasks
      ≡ count_active slow_app.world.system.table)
    × ((runtime_status sample_kernel slow_app).0.client_candidates ≡ (
        if slow_app.running && (active_config slow_app).offloader.enabled
        then length
            (eligible_from max_tasks 0 slow_app.world.system.table slow_app.world.system.registry)
        else 0))
    × ((runtime_status sample_kernel slow_app).0.client_candidates
        ≤ (runtime_status sample_kernel slow_app).0.monitored_tasks)
    × Same (runtime_status sample_kernel slow_app).1.world.system slow_app.world.system
    × ((runtime_status sample_kernel slow_app).1.world.offloader ≡ slow_app.world.offloader)
    × ((runtime_status sample_kernel slow_app).1.running ≡ slow_app.running)
runtime_status_reports_example = runtime_status_reports sample_kernel slow_app refl

create_pair_ex_answers_example :
    (i a : ℕ) × ((create_pair_ex sample_env sample_args started_system).0
      ≡ record { task_index = pos i; failure_reason = failure_none })
    × (slot_owned (create_pair_ex sample_env sample_args started_system).1.registry a ≡ true)
    × (slot_matches (create_pair_ex sample_env sample_args started_system).1.registry (pos i) a
        ≡ true)
    × (is_some (
          runtime_from_task_index
            (pos i)
            (create_pair_ex sample_env sample_args started_system).1.registry)
        ≡ true)
    × (is_some
          (runtime_at
            (create_pair_ex sample_env sample_args started_system).1
            a).queue_client_server
        ≡ true)
    × (is_some
          (runtime_at
            (create_pair_ex sample_env sample_args started_system).1
            a).queue_server_client
        ≡ true)
unfolding check_args
create_pair_ex_answers_example =
    create_pair_ex_answers sample_env sample_env-IsGenerous sample_args checked_args started_system
      [] refl started_system-HasRoom empty_registry-IsFreeList

-- The offloader is ready and no pair was created yet.
abbrev empty_world : World
empty_world = record slow_client { system = started_system }

created_pair_routes_example :
    (i : ℕ) × ((create_pair_ex sample_env sample_args started_system).0
      ≡ record { task_index = pos i; failure_reason = failure_none })
    × ((run_for_task_index sample_kernel (pos i) (record empty_world {
      system =
          update_task_oe2el_by_index sample_kernel
            (pos i)
            20
            (create_pair_ex sample_env sample_args started_system).1;
    })).0
        ≡ true)
    × (site_at
          (pos i)
          (run_for_task_index sample_kernel (pos i) (record empty_world {
            system =
                update_task_oe2el_by_index sample_kernel
                  (pos i)
                  20
                  (create_pair_ex sample_env sample_args started_system).1;
          })).1.system.table
        ≡ some (chosen_site 10 20))
unfolding check_args is_local state_ready config_ready offloader_init policy_default_for_scheduler
    policy_fp default_config
created_pair_routes_example =
    created_pair_routes sample_env sample_env-IsGenerous sample_args checked_args empty_world [] 20
      refl started_system-HasRoom empty_registry-IsFreeList refl (omega arith)
      (λ z. absurd (omega (arith, z))) (omega arith) refl refl
